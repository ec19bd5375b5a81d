-- ===== src/Curve/Laws.antt =====
-- The price and the reserve grow with the supply.
use duel_protocol.Prelude.{ℕ, zero, suc, ◌+◌, ◌*◌, ◌/◌, ◌≤◌, arith}
use duel_protocol.Curve.{CurveConfig, pow_from, pow_big, price, reserve_integral, curve_scale}

pub mul_mono : (a b c d : ℕ) → a ≤ b → c ≤ d → a * c ≤ b * d
mul_mono a b c d h k = grind arith

pub div_mono : (a b d : ℕ) → a ≤ b → a / d ≤ b / d
div_mono a b d h = grind arith

pow_from_mono :
    (rounds base base' result result' : ℕ)
    → base ≤ base'
    → result ≤ result'
    → pow_from rounds base result ≤ pow_from rounds base' result'
unfolding pow_from
pow_from_mono zero base base' result result' h k = k
pow_from_mono (suc rounds) base base' result result' h k =
    pow_from_mono rounds base base' (result * base) (result' * base') h
      (mul_mono result result' base base' k h)

pub pow_big_mono : (k k' exp : ℕ) → k ≤ k' → pow_big k exp ≤ pow_big k' exp
unfolding pow_big
pow_big_mono k k' exp h = pow_from_mono exp k k' 1 1 h (omega arith)

-- The price never falls as the supply grows, whatever the coefficients.
pub price_mono : (config : CurveConfig) (k k' : ℕ) → k ≤ k' → price k config ≤ price k' config
unfolding price
price_mono config k k' h = omega (
  arith,
  div_mono _ _ curve_scale
      (mul_mono config.a config.a _ _ (omega arith) (pow_big_mono k k' config.n h)),
)

-- Nor does the reserve.
pub reserve_integral_mono :
    (config : CurveConfig) (k k' : ℕ)
    → k ≤ k'
    → reserve_integral k config ≤ reserve_integral k' config
unfolding reserve_integral
reserve_integral_mono config k k' h = omega (
  arith,
  div_mono _ _ ((config.n + 1) * curve_scale)
      (mul_mono config.a config.a _ _ (omega arith) (pow_big_mono k k' (config.n + 1) h)),
  mul_mono config.b config.b k k' (omega arith) h,
)
