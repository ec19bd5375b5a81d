-- ===== src/Curve/Marginal.antt =====
-- On the quadratic curve one more token costs about the spot price.
use duel_protocol.Prelude.{ℕ, ◌+◌, ◌*◌, ◌/◌, ◌≤◌, ◌≡◌, arith}
use duel_protocol.Curve.{CurveConfig, pow_big, price, reserve_integral}

module _ (config : CurveConfig) (quadratic : config.n ≡ 2) (k : ℕ) where
  pub price_quadratic : price k config ≡ config.a * (k * k) / 1000000000 + config.b
  unfolding price pow_big
  price_quadratic = rw quadratic (omega arith)

  reserve_quadratic : reserve_integral k config ≡ config.a * (k * k * k) / 3000000000 + config.b * k
  unfolding reserve_integral pow_big
  reserve_quadratic = rw quadratic (omega arith)

module _ (config : CurveConfig) (quadratic : config.n ≡ 2) (k : ℕ) where
  -- On a quadratic curve the next token costs at least the spot price, and at most one lamport
  -- more than the spot price after it.
  pub marginal_bounds :
      (reserve_integral k config + price k config ≤ reserve_integral (k + 1) config)
      × (reserve_integral (k + 1) config ≤ reserve_integral k config + price (k + 1) config + 1)
  marginal_bounds = omega (
    arith,
    price_quadratic config quadratic k,
    price_quadratic config quadratic (k + 1),
    reserve_quadratic config quadratic k,
    reserve_quadratic config quadratic (k + 1),
  )
