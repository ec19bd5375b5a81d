-- ===== src/Curve.antt =====
-- The bonding curve in exact integers: scripts/curve-sim.ts, whose `bigint` values are natural
-- numbers in every configuration that it declares.
pub mod Bisect
pub mod Laws
pub mod Trades
pub mod Marginal
pub mod Simulate
mod Tests
unfoldable pub use Bisect.{bisect}
use duel_protocol.Prelude.{
  ℕ, zero, suc, ◌+◌, ◌-◌, ◌*◌, ◌/◌, Option, some, Bool, String, ltb, leb, if◌then◌else◌,
}

abbrev pub curve_scale : ℕ
curve_scale = 1000000000

pub record CurveConfig : Type 0 where
  pub name : String
  pub a : ℕ
  pub n : ℕ
  pub b : ℕ
  pub total_supply : ℕ
  pub decimals : ℕ

-- The loop of `powBig`: `rounds` are left, and `result` is the product so far.
pow_from : ℕ → ℕ → ℕ → ℕ
pow_from zero base result = result
pow_from (suc rounds) base result = pow_from rounds base (result * base)

unfoldable pub pow_big : ℕ → ℕ → ℕ
unfolding pow_from
pow_big base exp = pow_from exp base 1

unfoldable pub price : ℕ → CurveConfig → ℕ
price k config = config.a * pow_big k config.n / curve_scale + config.b

unfoldable pub reserve_integral : ℕ → CurveConfig → ℕ
reserve_integral k config =
    let n_plus_1 = config.n + 1 in
    let k_pow_n1 = pow_big k (config.n + 1) in
    let term1 = config.a * k_pow_n1 / (n_plus_1 * curve_scale) in
    let term2 = config.b * k in term1 + term2

-- `cost <= solAmount` at `mid`; the cost is not negative since the reserve grows (`Curve.Laws`).
abbrev pub affordable : ℕ → ℕ → CurveConfig → ℕ → Bool
affordable sol_amount current_supply config mid =
    let r_current = reserve_integral current_supply config in
    let r_new = reserve_integral (current_supply + mid) config in leb (r_new - r_current) sol_amount

-- `none` would mean that the fuel of the loop ran out. A supply above the total makes `available`
-- negative in the source; here it is then 0, with the same result.
unfoldable pub tokens_out : ℕ → ℕ → CurveConfig → Option ℕ
tokens_out sol_amount current_supply config =
    let available = config.total_supply - current_supply in
    if leb available 0
    then some 0
    else bisect (available + 2) (affordable sol_amount current_supply config) 0 available 0
