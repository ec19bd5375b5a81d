-- ===== src/Sdk/Indexer/Laws.antt =====
-- Facts on the map of markets: what a change of one market does to sums and predicates.
pub mod Totals
pub mod Traders
use duel_protocol.Prelude.{
  ℕ, ◌+◌, ◌≤◌, ◌≡◌, refl, Bool, true, false, List, [], ◌∷◌, ◌++◌, arith, sum_by, All, All-append,
  ◌==◌, ◌||◌, Bool-cases, inl, inr,
}
use duel_protocol.Sdk.Indexer.{
  Key, MarketAnalytics, fresh_market, has, get_or_create_market, mutate,
}

sum_by-append :
    (g : MarketAnalytics → ℕ) (ms ns : List MarketAnalytics)
    → sum_by g (ms ++ ns) ≡ sum_by g ms + sum_by g ns
sum_by-append g [] ns = omega arith
sum_by-append g (m ∷ ms) ns = omega (arith, sum_by-append g ms ns)

has-append_fresh :
    (k now : ℕ) (ms : List MarketAnalytics) → has k (ms ++ fresh_market k now ∷ []) ≡ true
unfolding has fresh_market
has-append_fresh k now [] = ground arith
has-append_fresh k now (m ∷ ms) = ground (arith, has-append_fresh k now ms)

pub has-get_or_create_market :
    (k now : ℕ) (ms : List MarketAnalytics) → has k (get_or_create_market k now ms) ≡ true
unfolding get_or_create_market
has-get_or_create_market k now ms = ground (arith, has-append_fresh k now ms)

module _ (g : MarketAnalytics → ℕ) (f : MarketAnalytics → MarketAnalytics) (d : ℕ) (k : Key) where
  sum_by-mutate :
      ((m : MarketAnalytics) → g (f m) ≡ g m + d)
      → (ms : List MarketAnalytics) → has k ms ≡ true
      → sum_by g (mutate k f ms) ≡ sum_by g ms + d
  unfolding has mutate
  sum_by-mutate step [] h = cc
  sum_by-mutate step (m ∷ ms) h = ground (arith, step m, sum_by-mutate step ms)

  sum_by-mutate_le :
      ((m : MarketAnalytics) → g (f m) ≤ g m + d)
      → (ms : List MarketAnalytics) → sum_by g (mutate k f ms) ≤ sum_by g ms + d
  unfolding mutate
  sum_by-mutate_le step [] = omega arith
  sum_by-mutate_le step (m ∷ ms) = ground (arith, step m, sum_by-mutate_le step ms)

  module _ (now : ℕ) (nought : g (fresh_market k now) ≡ 0) (ms : List MarketAnalytics) where
    sum_by-get_or_create_market : sum_by g (get_or_create_market k now ms) ≡ sum_by g ms
    unfolding get_or_create_market
    sum_by-get_or_create_market = ground (arith, sum_by-append g ms (fresh_market k now ∷ []))

    -- A change that adds `d` to a measure of its market adds `d` to the sum over all markets.
    pub sum_by-with_market :
        ((m : MarketAnalytics) → g (f m) ≡ g m + d)
        → sum_by g (mutate k f (get_or_create_market k now ms)) ≡ sum_by g ms + d
    sum_by-with_market step = omega (
      arith,
      sum_by-get_or_create_market,
      sum_by-mutate step (get_or_create_market k now ms) (has-get_or_create_market k now ms),
    )

    pub sum_by-with_market_le :
        ((m : MarketAnalytics) → g (f m) ≤ g m + d)
        → sum_by g (mutate k f (get_or_create_market k now ms)) ≤ sum_by g ms + d
    sum_by-with_market_le step =
        omega (
          arith,
          sum_by-get_or_create_market,
          sum_by-mutate_le step (get_or_create_market k now ms),
        )

module _ (P : MarketAnalytics → Type 0) (k now : ℕ) (f : MarketAnalytics → MarketAnalytics) where
  All-mutate :
      ((m : MarketAnalytics) → P m → P (f m))
      → (ms : List MarketAnalytics) → All P ms
      → All P (mutate k f ms)
  unfolding mutate
  All-mutate step [] h = tt
  All-mutate step (m ∷ ms) (p, h) = elim (Bool-cases (m.market == k)) [
    | inl here ↦ rw here (step m p, h)
    | inr there ↦ rw there (p, All-mutate step ms h)
  ]

  -- What holds of a fresh market and is kept by the change still holds of every market.
  pub All-with_market :
      P (fresh_market k now)
      → ((m : MarketAnalytics) → P m → P (f m))
      → (ms : List MarketAnalytics) → All P ms
      → All P (mutate k f (get_or_create_market k now ms))
  unfolding get_or_create_market
  All-with_market new step ms h = All-mutate step _ (elim (Bool-cases (has k ms)) [
    | inl known ↦ rw known h
    | inr unknown ↦ rw unknown (All-append P ms (fresh_market k now ∷ []) h (new, tt))
  ])
