-- ===== src/App/Estimate/WalkUp.antt =====
-- The walk up the curve, against the curve in exact integers.
use duel_protocol.Prelude.{
  ℕ, zero, suc, ◌+◌, ◌-◌, ◌*◌, ◌/◌, ◌≤◌, ◌<◌, ◌≡◌, refl, some, false, ltb, leb, ◌&&◌, arith,
  Bool-cases, inl, inr, ltb→lt, leb-false, leb→le,
}
use duel_protocol.Curve.{CurveConfig, price, reserve_integral}
use duel_protocol.Curve.Laws.{price_mono}
use duel_protocol.Curve.Marginal.{marginal_bounds, price_quadratic}
use duel_protocol.Sdk.Math.Whole.{sdk_config}
use duel_protocol.App.Estimate.{total_supply, calculate_price, walk_up}

abbrev pub app_config : CurveConfig
app_config = sdk_config total_supply

abbrev pub reserve : ℕ → ℕ
reserve k = reserve_integral k app_config

calculate_price-price : (k : ℕ) → calculate_price k ≡ price k app_config
unfolding calculate_price
calculate_price-price k = omega (arith, price_quadratic app_config refl k)

-- Each of the next `r` tokens costs at least the price of the first.
pub run_cost : (k r : ℕ) → reserve k + calculate_price k * r ≤ reserve (k + r)
run_cost k zero = let same : k + 0 ≡ k = omega arith in rw same (omega arith)
run_cost k (suc r) =
    let shift : k + suc r ≡ k + r + 1 = omega arith in
    let next = marginal_bounds app_config refl (k + r) in
    let rising = price_mono app_config k (k + r) (omega arith) in
    rw shift (grind (arith, run_cost k r, next.0, rising, calculate_price-price k))

le_div : (p r m : ℕ) → 0 < p → p * r ≤ m → r ≤ m / p
le_div p r m pos h = grind arith

div_lt : (p n m : ℕ) → 0 < p → m < p * n → m / p < n
div_lt p n m pos h = grind arith

-- The tokens that the walk may still give: no fewer than the curve gives, and fewer than a step
-- beyond what is for sale.
pub record IsWalkUp (remaining supply tokens t : ℕ) : Type 0 where
  pub kept : tokens ≤ t
  pub covers :
      (r : ℕ)
      → supply + r ≤ total_supply
      → reserve (supply + r) ≤ reserve supply + remaining
      → tokens + r ≤ t
  pub short : t ≤ tokens + (total_supply - supply + 99) / 100 * 100

pub price_pos : (k : ℕ) → 0 < calculate_price k
unfolding calculate_price
price_pos k = omega arith

IsWalkUp-stop :
    (remaining supply tokens : ℕ)
    → (ltb 0 remaining && ltb supply total_supply) ≡ false
    → IsWalkUp remaining supply tokens tokens
IsWalkUp-stop remaining supply tokens stop = record {
  kept = omega arith;
  covers = λ r fits cheap.
      grind (
        arith,
        run_cost supply r,
        price_pos supply,
        ltb→lt 0 remaining,
        ltb→lt supply total_supply,
      );
  short = omega arith;
}

IsWalkUp-part :
    (remaining supply tokens : ℕ)
    → supply < total_supply
    → leb (calculate_price supply * 100) remaining ≡ false
    → IsWalkUp remaining supply tokens (tokens + remaining / calculate_price supply)
IsWalkUp-part remaining supply tokens below partial = record {
  kept = omega arith;
  covers = λ r fits cheap.
      let cost = run_cost supply r in
      let bound = le_div (calculate_price supply) r remaining (price_pos supply) (omega arith) in
      omega arith;
  short =
      let few =
        div_lt (calculate_price supply) 100 remaining (price_pos supply) (leb-false _ _ partial) in
      omega arith;
}

IsWalkUp-step :
    (remaining supply tokens t : ℕ)
    → calculate_price supply * 100 ≤ remaining
    → IsWalkUp (remaining - calculate_price supply * 100) (supply + 100) (tokens + 100) t
    → supply < total_supply
    → IsWalkUp remaining supply tokens t
IsWalkUp-step remaining supply tokens t full rest below = record {
  kept = omega (arith, rest.kept);
  covers = λ r fits cheap. elim (Bool-cases (leb r 100)) [
    | inl few ↦ omega (arith, leb→le r 100 few, rest.kept)
    | inr many ↦
        let over = leb-false r 100 many in
        let same : supply + 100 + (r - 100) ≡ supply + r = omega arith in
        let batch = run_cost supply 100 in
        let paid : reserve (supply + 100 + (r - 100))
            ≤ reserve (supply + 100) + (remaining - calculate_price supply * 100) =
          rw same (omega arith) in
        omega (arith, rest.covers (r - 100) (omega arith) paid)
  ];
  short = omega (arith, rest.short);
}

pub walk_up-IsWalkUp :
    (fuel remaining supply tokens : ℕ)
    → supply < total_supply + 100
    → total_supply + 100 ≤ supply + 100 * fuel
    → (t : ℕ) × (walk_up fuel remaining supply tokens ≡ some t) × IsWalkUp remaining supply tokens t
unfolding walk_up
walk_up-IsWalkUp zero remaining supply tokens low enough = absurd (omega arith)
walk_up-IsWalkUp (suc fuel) remaining supply tokens low enough =
    elim (Bool-cases (ltb 0 remaining && ltb supply total_supply)) [
      | inr stop ↦ (tokens, rw stop refl, IsWalkUp-stop remaining supply tokens stop)
      | inl go ↦ elim (Bool-cases (leb (calculate_price supply * 100) remaining)) [
        | inr partial ↦
            (_, rw (go, partial) refl, IsWalkUp-part remaining supply tokens (ground arith) partial)
        | inl full ↦
            let below : supply < total_supply = ground arith in
            let (t, ends, rest) =
              walk_up-IsWalkUp fuel (remaining - calculate_price supply * 100) (supply + 100)
                (tokens + 100) (omega arith) (omega arith) in
            (
              t,
              rw (go, full) ends,
              IsWalkUp-step remaining supply tokens t (leb→le _ _ full) rest below,
            )
      ]
    ]
