-- ===== src/Sdk/Indexer/Laws/Traders.antt =====
-- The sets of traders.
use duel_protocol.Prelude.{
  ℕ, ◌≡◌, refl, true, false, List, [], ◌∷◌, ◌++◌, arith, All, ◌==◌, ◌||◌, Bool-cases, inl, inr,
}
use duel_protocol.Sdk.Indexer.{
  Key, DuelEvent, Trade, market_created, tokens_bought, tokens_sold, twap_sampled, market_resolved,
  config_updated, market_closed, emergency_resolved, DuelIndexer, MarketAnalytics, fresh_market,
  includes, add, on_created, on_buy, on_sell, on_sampled, on_resolved, update_analytics,
  process_event, process_events, new_indexer,
}
use duel_protocol.Sdk.Indexer.Laws.{All-with_market}

includes-append : (k x : Key) (xs : List Key) → includes k (xs ++ x ∷ []) ≡ includes k xs || x == k
unfolding includes
includes-append k x [] = ground arith
includes-append k x (y ∷ xs) = ground (arith, includes-append k x xs)

includes-add : (k x : Key) (xs : List Key) → includes k xs ≡ true → includes k (add x xs) ≡ true
unfolding add
includes-add k x xs h = ground (arith, includes-append k x xs)

includes-add_self : (x : Key) (xs : List Key) → includes x (add x xs) ≡ true
unfolding add
includes-add_self x xs = ground (arith, includes-append x x xs)

-- Every element of the first set is in the second.
abbrev pub Within : List Key → List Key → Type 0
Within g = All (λ k. includes k g ≡ true)

abbrev pub NoRepeats : List Key → Type 0
NoRepeats [] = Unit
NoRepeats (x ∷ xs) = (includes x xs ≡ false) × NoRepeats xs

NoRepeats-append :
    (x : Key) (xs : List Key) → NoRepeats xs → includes x xs ≡ false → NoRepeats (xs ++ x ∷ [])
unfolding includes
NoRepeats-append x [] h new = (refl, tt)
NoRepeats-append x (y ∷ xs) (once, h) new =
    (ground (arith, includes-append y x xs), NoRepeats-append x xs h (ground arith))

NoRepeats-add : (x : Key) (xs : List Key) → NoRepeats xs → NoRepeats (add x xs)
unfolding add
NoRepeats-add x xs h = elim (Bool-cases (includes x xs)) [
  | inl known ↦ rw known h
  | inr new ↦ rw new (NoRepeats-append x xs h new)
]

Within-add : (x : Key) (g xs : List Key) → Within g xs → Within (add x g) xs
Within-add x g [] h = tt
Within-add x g (y ∷ xs) (p, h) = (includes-add y x g p, Within-add x g xs h)

Within-append :
    (x : Key) (g xs : List Key) → Within g xs → includes x g ≡ true → Within g (xs ++ x ∷ [])
Within-append x g [] h p = (p, tt)
Within-append x g (y ∷ xs) (q, h) p = (q, Within-append x g xs h p)

Within-add_both :
    (x : Key) (g xs : List Key) → Within g xs → includes x g ≡ true → Within g (add x xs)
unfolding add
Within-add_both x g xs h p = elim (Bool-cases (includes x xs)) [
  | inl known ↦ rw known h
  | inr new ↦ rw new (Within-append x g xs h p)
]

-- A market's traders are among `g`, each once.
abbrev pub HasTraders : List Key → MarketAnalytics → Type 0
HasTraders g m = Within g m.unique_traders × NoRepeats m.unique_traders

widen :
    (x : Key) (g : List Key) (ms : List MarketAnalytics)
    → All (HasTraders g) ms
    → All (HasTraders (add x g)) ms
widen x g [] h = tt
widen x g (m ∷ ms) ((w, n), h) = ((Within-add x g m.unique_traders w, n), widen x g ms h)

-- The global set of traders has no repetitions, and holds the traders of every market.
pub record IsCovered (ix : DuelIndexer) : Type 0 where
  pub no_repeats : NoRepeats ix.global.unique_traders
  pub covered : All (HasTraders ix.global.unique_traders) ix.markets

module _ (g : List Key) (d : Trade) where
  join :
      (m : MarketAnalytics)
      → HasTraders (add d.trader g) m
      → HasTraders (add d.trader g) (record m { unique_traders = add d.trader m.unique_traders })
  join m (w, n) = (
    Within-add_both d.trader (add d.trader g) m.unique_traders w (includes-add_self d.trader g),
    NoRepeats-add d.trader m.unique_traders n,
  )

update_analytics-IsCovered :
    (now : ℕ) (e : DuelEvent) (ix : DuelIndexer)
    → IsCovered ix
    → IsCovered (update_analytics now e ix)
unfolding update_analytics fresh_market
update_analytics-IsCovered now (market_created k authority deadline) ix h = record {
  no_repeats = h.no_repeats;
  covered =
      All-with_market (HasTraders ix.global.unique_traders) k now
        (on_created authority deadline now) (tt, tt) (λ m p. p) ix.markets h.covered;
}
update_analytics-IsCovered now (tokens_bought d) ix h = record {
  no_repeats = NoRepeats-add d.trader ix.global.unique_traders h.no_repeats;
  covered =
      All-with_market (HasTraders (add d.trader ix.global.unique_traders)) d.market now
        (on_buy d now) (tt, tt) (λ m p. join ix.global.unique_traders d m p) ix.markets
        (widen d.trader ix.global.unique_traders ix.markets h.covered);
}
update_analytics-IsCovered now (tokens_sold d) ix h = record {
  no_repeats = NoRepeats-add d.trader ix.global.unique_traders h.no_repeats;
  covered =
      All-with_market (HasTraders (add d.trader ix.global.unique_traders)) d.market now
        (on_sell d now) (tt, tt) (λ m p. join ix.global.unique_traders d m p) ix.markets
        (widen d.trader ix.global.unique_traders ix.markets h.covered);
}
update_analytics-IsCovered now (twap_sampled k) ix h = record {
  no_repeats = h.no_repeats;
  covered =
      All-with_market (HasTraders ix.global.unique_traders) k now on_sampled (tt, tt) (λ m p. p)
        ix.markets h.covered;
}
update_analytics-IsCovered now (market_resolved d) ix h = record {
  no_repeats = h.no_repeats;
  covered =
      All-with_market (HasTraders ix.global.unique_traders) d.market now (on_resolved d) (tt, tt)
        (λ m p. p) ix.markets h.covered;
}
update_analytics-IsCovered now config_updated ix h = h
update_analytics-IsCovered now (market_closed k) ix h = h
update_analytics-IsCovered now (emergency_resolved k) ix h = h

-- Any batch of events keeps the sets of traders free of repetitions, and the traders of every
-- market among the global ones.
pub process_events-IsCovered :
    (clock : ℕ → ℕ) (slot : ℕ) (es : List DuelEvent) (ix : DuelIndexer)
    → IsCovered ix
    → IsCovered (process_events clock slot es ix)
unfolding process_events process_event
process_events-IsCovered clock slot [] ix h = h
process_events-IsCovered clock slot (e ∷ es) ix h =
    let step = update_analytics-IsCovered (clock ix.global.events_processed) e ix h in
    process_events-IsCovered clock slot es (process_event clock slot e ix)
      (record { no_repeats = step.no_repeats; covered = step.covered })

pub new_indexer-IsCovered : IsCovered new_indexer
unfolding new_indexer
new_indexer-IsCovered = record { no_repeats = tt; covered = tt }
