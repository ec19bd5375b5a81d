-- ===== src/Curve/Trades.antt =====
-- What a buy gives: the search of `tokensOut` ends, and finds the best affordable amount.
use duel_protocol.Prelude.{
  ℕ, ◌+◌, ◌-◌, ◌≤◌, ◌≡◌, refl, some, leb, leb→le, le→leb, arith, Bool-cases, inl, inr,
}
use native.Mathlib.Nat.{add_assoc}
use duel_protocol.Curve.{CurveConfig, reserve_integral, affordable, tokens_out}
use duel_protocol.Curve.Bisect.{IsLargest, IsDownward, search_IsLargest}
use duel_protocol.Curve.Laws.{reserve_integral_mono}

-- `r` tokens are for sale, cost at most `sol`, and no larger amount for sale does.
pub record IsBestBuy (sol supply : ℕ) (config : CurveConfig) (r : ℕ) : Type 0 where
  pub in_budget : reserve_integral (supply + r) config ≤ reserve_integral supply config + sol
  pub for_sale : r ≤ config.total_supply - supply
  pub best :
      (m : ℕ)
      → m ≤ config.total_supply - supply
      → reserve_integral (supply + m) config ≤ reserve_integral supply config + sol
      → m ≤ r

module _ (sol supply : ℕ) (config : CurveConfig) where
  affordable-IsDownward : IsDownward (affordable sol supply config)
  affordable-IsDownward m k le fit =
      ground (arith, reserve_integral_mono config (supply + m) (supply + k) (omega arith))

  largest_IsBestBuy :
      (r : ℕ)
      → IsLargest (affordable sol supply config) (config.total_supply - supply) r
      → IsBestBuy sol supply config r
  largest_IsBestBuy r found = record {
    in_budget = ground (arith, found.fits_here);
    for_sale = found.within;
    best = λ m h cheap. found.largest m h (le→leb _ _ (omega arith));
  }

  -- For every budget, supply and configuration the search returns, and its result is the largest
  -- amount for sale that the budget pays for.
  pub tokens_out-IsBestBuy :
      (r : ℕ) × (tokens_out sol supply config ≡ some r) × IsBestBuy sol supply config r
  unfolding tokens_out
  tokens_out-IsBestBuy =
      let available = config.total_supply - supply in
      elim (Bool-cases (leb available 0)) [
        | inl sold_out ↦ (
          0,
          rw sold_out refl,
          record {
            in_budget = ground arith;
            for_sale = omega arith;
            best = λ m h cheap. ground (arith, leb→le available 0 sold_out);
          },
        )
        | inr open_range ↦ rw open_range (
            let (r, returned, found) =
              search_IsLargest (affordable sol supply config) affordable-IsDownward available
                (ground arith) in
            (r, returned, largest_IsBestBuy r found))
      ]

-- Whatever the search returns is the best buy.
pub best_of_return :
    (sol supply : ℕ) (config : CurveConfig) {r : ℕ}
    → tokens_out sol supply config ≡ some r
    → IsBestBuy sol supply config r
best_of_return sol supply config e =
    let (found, returned, is_best) = tokens_out-IsBestBuy sol supply config in
    let same : found ≡ _ = cc in rw same at is_best

-- Two buys in a row give at most as many tokens as one buy with the sum of their budgets.
pub tokens_out-split :
    (sol₁ sol₂ supply r₁ r₂ r : ℕ) (config : CurveConfig)
    → tokens_out sol₁ supply config ≡ some r₁
    → tokens_out sol₂ (supply + r₁) config ≡ some r₂
    → tokens_out (sol₁ + sol₂) supply config ≡ some r
    → r₁ + r₂ ≤ r
tokens_out-split sol₁ sol₂ supply r₁ r₂ r config first second whole =
    let b₁ = best_of_return sol₁ supply config first in
    let b₂ = best_of_return sol₂ (supply + r₁) config second in
    let b = best_of_return (sol₁ + sol₂) supply config whole in
    let together : reserve_integral (supply + (r₁ + r₂)) config
        ≡ reserve_integral (supply + r₁ + r₂) config =
      rw add_assoc in
    b.best (r₁ + r₂) (omega (arith, b₁.for_sale, b₂.for_sale))
      (omega (arith, b₁.in_budget, b₂.in_budget, together))
