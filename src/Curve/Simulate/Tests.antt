-- ===== src/Curve/Simulate/Tests.antt =====
-- Runs of the report, and an instance of what it shows.
use duel_protocol.Prelude.{◌≤◌, ◌≡◌, refl, some, List, [], ◌∷◌, All, length}
use duel_protocol.Sdk.Number.{whole}
use duel_protocol.Curve.{CurveConfig, reserve_integral, pow_big}
use duel_protocol.Curve.Simulate.{
  fixed, Line, simulate, sale_lines, lamports_to_sol, to_human_tokens, usd_from_lamports,
}
use duel_protocol.Curve.Simulate.Laws.{IsSound, simulate-IsSound}

-- "QUADRATIC (100K tokens, 0 dec)" of scripts/curve-sim.ts.
abbrev small : CurveConfig
small = record {
  name = "QUADRATIC (100K tokens, 0 dec)";
  a = 1000000;
  n = 2;
  b = 100;
  total_supply = 100000;
  decimals = 0;
}

abbrev sales : List (Line whole)
sales = sale_lines whole small 4620 (10 ∷ 25 ∷ 50 ∷ [])

sales_run : length sales ≡ 3
unfolding sale_lines reserve_integral pow_big
sales_run = refl

supply_shown : to_human_tokens whole 100000 0 ≡ fixed "" 100 1 "K"
unfolding to_human_tokens
supply_shown = refl

lamports_shown : lamports_to_sol whole 2500000000 ≡ fixed "" 2 3 " SOL"
unfolding lamports_to_sol
lamports_shown = refl

dollars_shown : usd_from_lamports whole 2500000000 ≡ fixed "$" 300 2 ""
unfolding usd_from_lamports
dollars_shown = refl

simulate-IsSound_example :
    (ls : List (Line whole)) × (simulate whole small ≡ some ls)
    × (33 ≤ length ls)
    × All (IsSound whole small) ls
simulate-IsSound_example = simulate-IsSound whole small
