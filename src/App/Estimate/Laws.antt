-- ===== src/App/Estimate/Laws.antt =====
-- The page's estimates against the curve in exact integers.
use duel_protocol.Prelude.{
  ℕ, zero, suc, ◌+◌, ◌-◌, ◌*◌, ◌/◌, ◌≤◌, ◌<◌, ◌≡◌, refl, some, true, ltb, leb, ◌==◌, ◌||◌, ◌&&◌,
  min, arith, Bool-cases, inl, inr,
}
use duel_protocol.Curve.{reserve_integral, tokens_out}
use duel_protocol.Curve.Trades.{best_of_return}
use duel_protocol.App.Estimate.{
  total_supply, calculate_price, estimate_tokens_out, walk_down, estimate_sol_out,
}
use duel_protocol.App.Estimate.WalkUp.{app_config, reserve, run_cost, price_pos, walk_up-IsWalkUp}

-- For every supply and budget the estimate of a purchase ends, and is at least what the exact
-- curve gives for the budget and less than 100 above what is for sale.
pub estimate_tokens_out_bounds :
    (supply sol : ℕ)
    → (t : ℕ) × (estimate_tokens_out supply sol ≡ some t)
      × ((r : ℕ) → tokens_out sol supply app_config ≡ some r → r ≤ t)
      × (t < total_supply - supply + 100)
unfolding estimate_tokens_out
estimate_tokens_out_bounds supply sol = elim (Bool-cases (sol == 0 || leb total_supply supply)) [
  | inl none_out ↦ (0, rw none_out refl, λ r got. nothing r got none_out, omega arith)
  | inr some_out ↦
      let (t, ends, up) =
        walk_up-IsWalkUp ((total_supply - supply) / 100 + 2) sol supply 0 (ground arith)
          (omega arith) in
      (
        t,
        rw some_out ends,
        (λ r got.
            let best = best_of_return sol supply app_config got in
            let room : supply + r ≤ total_supply = ground (arith, best.for_sale) in
            let held = up.covers r room best.in_budget in omega (arith, held)),
        omega (arith, up.short),
      )
]
  where
    nothing :
        (r : ℕ)
        → tokens_out sol supply app_config ≡ some r
        → (sol == 0 || leb total_supply supply) ≡ true
        → r ≤ 0
    nothing r got none_out =
        let best = best_of_return sol supply app_config got in
        let cost = run_cost supply r in
        grind (arith, price_pos supply, best.for_sale, best.in_budget, cost)

sell_step :
    (supply batch : ℕ)
    → batch ≤ supply
    → calculate_price (supply - batch) * batch + reserve (supply - batch) ≤ reserve supply
sell_step supply batch le =
    let same : supply - batch + batch ≡ supply = omega arith in
    let run = run_cost (supply - batch) batch in
    let run' : reserve (supply - batch) + calculate_price (supply - batch) * batch
        ≤ reserve supply =
      rw same at run in
    omega arith

from_same : (t u a b : ℕ) → a ≡ b → t + reserve a ≤ u → t + reserve b ≤ u
from_same t u a b same h = let at : reserve a ≡ reserve b = rw same in omega (arith, at, h)

walk_down_bound :
    (fuel remaining supply lamports : ℕ)
    → min remaining supply + 100 ≤ 100 * fuel
    → (t : ℕ) × (walk_down fuel remaining supply lamports ≡ some t)
      × (t + reserve (supply - min remaining supply) ≤ lamports + reserve supply)
unfolding walk_down
walk_down_bound zero remaining supply lamports enough = absurd (omega arith)
walk_down_bound (suc fuel) remaining supply lamports enough =
    elim (Bool-cases (ltb 0 remaining && ltb 0 supply)) [
      | inr stop ↦
          let none_left : supply ≡ supply - min remaining supply = ground arith in
          (lamports, rw stop refl, from_same lamports _ supply _ none_left (omega arith))
      | inl go ↦
          let batch = min 100 (min remaining supply) in
          let (t, ends, held) =
            walk_down_bound fuel (remaining - batch) (supply - batch)
              (lamports + calculate_price (supply - batch) * batch) (ground arith) in
          let left : supply - batch - min (remaining - batch) (supply - batch)
              ≡ supply - min remaining supply =
            ground arith in
          let sold = sell_step supply batch (ground arith) in
          let bound : t + reserve (supply - batch - min (remaining - batch) (supply - batch))
              ≤ lamports + reserve supply =
            omega (arith, held, sold) in
          let bound' : t + reserve (supply - min remaining supply) ≤ lamports + reserve supply =
            from_same t _ (supply - batch - min (remaining - batch) (supply - batch))
              (supply - min remaining supply) left bound in
          (t, rw go ends, bound')
    ]

-- For every supply and amount the estimate of a sale ends, and is at most what the reserve of the
-- curve falls by when the tokens, or all there are, are sold.
pub estimate_sol_out_bounds :
    (supply n : ℕ)
    → (t : ℕ) × (estimate_sol_out supply n ≡ some t)
      × (t + reserve_integral (supply - min n supply) app_config
          ≤ reserve_integral supply app_config)
unfolding estimate_sol_out
estimate_sol_out_bounds supply n = elim (Bool-cases (n == 0 || supply == 0)) [
  | inl nothing ↦
      let none_sold : supply ≡ supply - min n supply = ground arith in
      (0, rw nothing refl, from_same 0 _ supply _ none_sold (omega arith))
  | inr something ↦
      let (t, ends, bound) = walk_down_bound (n / 100 + 2) n supply 0 (ground arith) in
      (t, rw something ends, omega (arith, bound))
]
