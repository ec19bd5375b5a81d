-- ===== src/App/Estimate/Tests.antt =====
-- Runs of the page's estimates, and the laws at concrete trades.
use duel_protocol.Prelude.{ℕ, ◌+◌, ◌-◌, ◌≤◌, ◌<◌, ◌≡◌, refl, some, min}
use duel_protocol.Curve.{reserve_integral, tokens_out}
use duel_protocol.App.Estimate.{
  total_supply, calculate_price, walk_up, estimate_tokens_out, walk_down, estimate_sol_out,
}
use duel_protocol.App.Estimate.WalkUp.{app_config}
use duel_protocol.App.Estimate.Laws.{estimate_tokens_out_bounds, estimate_sol_out_bounds}

buy_run : estimate_tokens_out 0 250 ≡ some 250
unfolding estimate_tokens_out walk_up calculate_price
buy_run = refl

-- The last step is not cut to what is for sale.
buy_beyond_supply : estimate_tokens_out 999999950 1000000000000 ≡ some 100
unfolding estimate_tokens_out walk_up calculate_price
buy_beyond_supply = refl

sell_run : estimate_sol_out 200000 150 ≡ some 6000
unfolding estimate_sol_out walk_down calculate_price
sell_run = refl

abbrev spent : ℕ
spent = 250

estimate_tokens_out_bounds_example :
    (t : ℕ) × (estimate_tokens_out 0 spent ≡ some t)
    × ((r : ℕ) → tokens_out spent 0 app_config ≡ some r → r ≤ t)
    × (t < total_supply - 0 + 100)
estimate_tokens_out_bounds_example = estimate_tokens_out_bounds 0 spent

estimate_sol_out_bounds_example :
    (t : ℕ) × (estimate_sol_out 200000 spent ≡ some t)
    × (t + reserve_integral (200000 - min spent 200000) app_config
        ≤ reserve_integral 200000 app_config)
estimate_sol_out_bounds_example = estimate_sol_out_bounds 200000 spent
