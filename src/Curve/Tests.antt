-- ===== src/Curve/Tests.antt =====
-- Runs of the simulation's configurations, and instances of the theorems.
use duel_protocol.Prelude.{ℕ, ◌≡◌, refl, some}
use duel_protocol.Curve.{CurveConfig, price, reserve_integral, tokens_out, bisect, pow_big}
use duel_protocol.Curve.Trades.{IsBestBuy, tokens_out-IsBestBuy}

-- "QUADRATIC (100K tokens, 0 dec)" of scripts/curve-sim.ts.
abbrev quadratic : CurveConfig
quadratic = record {
  name = "QUADRATIC (100K tokens, 0 dec)";
  a = 1000000;
  n = 2;
  b = 100;
  total_supply = 100000;
  decimals = 0;
}

price_run : price 1000 quadratic ≡ 1100
unfolding price pow_big
price_run = refl

first_buy : tokens_out 33333333 0 quadratic ≡ some 4620
unfolding tokens_out bisect reserve_integral pow_big
first_buy = refl

tokens_out-IsBestBuy_example :
    (r : ℕ) × (tokens_out 33333333 0 quadratic ≡ some r) × IsBestBuy 33333333 0 quadratic r
tokens_out-IsBestBuy_example = tokens_out-IsBestBuy 33333333 0 quadratic
