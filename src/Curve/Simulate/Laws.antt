-- ===== src/Curve/Simulate/Laws.antt =====
-- What the lines of the report say of the curve.
use duel_protocol.Prelude.{
  ℕ, zero, suc, ◌+◌, ◌-◌, ◌*◌, ◌/◌, ◌≤◌, ◌<◌, ◌≡◌, refl, Option, some, true, false, List, [], ◌∷◌,
  ◌++◌, Bool, length, length-append, map, All, if_intro, All-append, ltb, ltb→lt, if◌then◌else◌,
  arith,
}
use duel_protocol.Sdk.Number.{Number}
use duel_protocol.Curve.{CurveConfig, pow_from, pow_big, reserve_integral, curve_scale}
use duel_protocol.Curve.Laws.{mul_mono}
use duel_protocol.Curve.Trades.{IsBestBuy, tokens_out-IsBestBuy}
use duel_protocol.Curve.Simulate.{
  Line, heading, price_level, reserve_level, circulating, purchase, first_buyer, early_sale,
  multiplier, sol_amount, supply_at, price_line, price_lines, reserve_line, reserve_lines,
  multiplier_line, buy_line, buy_lines, start_lines, sale_lines, early_lines, multiplier_lines,
  report, simulate,
}

pow_from_mono : (r x s t : ℕ) → s ≤ t → pow_from r x s ≤ pow_from r x t
unfolding pow_from
pow_from_mono zero x s t h = h
pow_from_mono (suc r) x s t h = pow_from_mono r x (s * x) (t * x) (mul_mono s t x x h (omega arith))

add_products : (s t x y : ℕ) → s * x + t * y ≤ (s + t) * (x + y)
add_products s t x y = grind arith

pow_from_add : (r x y s t : ℕ) → pow_from r x s + pow_from r y t ≤ pow_from r (x + y) (s + t)
unfolding pow_from
pow_from_add zero x y s t = omega arith
pow_from_add (suc r) x y s t = omega (
  arith,
  pow_from_add r x y (s * x) (t * y),
  pow_from_mono r (x + y) (s * x + t * y) ((s + t) * (x + y)) (add_products s t x y),
)

pow_big_add : (n x y : ℕ) → pow_big x (n + 1) + pow_big y (n + 1) ≤ pow_big (x + y) (n + 1)
unfolding pow_big pow_from
pow_big_add n x y =
    let same : n + 1 ≡ suc n = omega arith in
    rw same (
      omega (
        arith,
        pow_from_add n x y (1 * x) (1 * y),
        pow_from_mono n (x + y) (1 * x + 1 * y) (1 * (x + y)) (omega arith),
      ))

le_div : (d q m : ℕ) → 0 < d → d * q ≤ m → q ≤ m / d
le_div d q m pos h = grind arith

div_mul_le : (d m : ℕ) → d * (m / d) ≤ m
div_mul_le d m = grind arith

div_add : (d u v w : ℕ) → 0 < d → u + v ≤ w → u / d + v / d ≤ w / d
div_add d u v w pos h =
    le_div d (u / d + v / d) w pos (grind (arith, div_mul_le d u, div_mul_le d v))

-- Two runs of tokens cost no more apart, each from an empty curve, than one after the other.
reserve_integral_add :
    (config : CurveConfig) (x y : ℕ)
    → reserve_integral x config + reserve_integral y config ≤ reserve_integral (x + y) config
unfolding reserve_integral
reserve_integral_add config x y =
    let e = config.n + 1 in
    let both : config.a * pow_big x e + config.a * pow_big y e ≤ config.a * pow_big (x + y) e =
      grind (arith, mul_mono config.a config.a _ _ (omega arith) (pow_big_add config.n x y)) in
    grind (arith, div_add (e * curve_scale) _ _ _ (omega arith) both)

if_given :
    {A : Type 0} (P : A → Type 0) (b : Bool) {x y : A}
    → (b ≡ true → P x)
    → P y
    → P (if b then x else y)
if_given P true p q = p refl
if_given P false p q = q

map-All :
    {A B : Type 0} (P : B → Type 0) (f : A → B) (holds : (x : A) → P (f x)) (xs : List A)
    → All P (map f xs)
map-All P f holds [] = tt
map-All P f holds (x ∷ xs) = (holds x, map-All P f holds xs)

module _ (js : Number) (config : CurveConfig) where
  -- A purchase shows the best buy for its dollars, an early sale what the first buyer got and a
  -- value of at least what that cost.
  abbrev pub IsSound : Line js → Type 0
  IsSound (purchase start usd tokens share) = IsBestBuy (sol_amount usd) start config tokens
  IsSound (early_sale pct future tokens value roi) =
      IsBestBuy (sol_amount 5) 0 config tokens
      × (reserve_integral tokens config ≤ value)
      × (value ≤ reserve_integral future config)
  IsSound (first_buyer usd tokens) = IsBestBuy (sol_amount usd) 0 config tokens
  IsSound (heading c) = Unit
  IsSound (price_level pct supply p) = Unit
  IsSound (reserve_level pct r) = Unit
  IsSound (circulating pct start) = Unit
  IsSound (multiplier pct multiple) = Unit

  -- The lines of a part of the report, so many and all sound.
  abbrev Lines : ℕ → Option (List (Line js)) → Type 0
  Lines n part = (ls : List (Line js)) × (part ≡ some ls) × (length ls ≡ n) × All IsSound ls

  buy_lines-Lines :
      (start : ℕ) (usds : List ℕ) → Lines (length usds) (buy_lines js config start usds)
  unfolding buy_lines
  buy_lines-Lines start [] = ([], refl, refl, tt)
  buy_lines-Lines start (usd ∷ usds) =
      let (tokens, returned, is_best) = tokens_out-IsBestBuy (sol_amount usd) start config in
      let (rest, later, many, sound) = buy_lines-Lines start usds in
      (
        buy_line js config start usd tokens ∷ rest,
        rw (returned, later, buy_lines),
        rw many,
        (is_best, sound),
      )

  start_lines-Lines : (pcts : List ℕ) → Lines (4 * length pcts) (start_lines js config pcts)
  unfolding start_lines
  start_lines-Lines [] = ([], refl, refl, tt)
  start_lines-Lines (pct ∷ pcts) =
      let (ls, returned, three, first) =
        buy_lines-Lines (supply_at config pct) (5 ∷ 50 ∷ 500 ∷ []) in
      let (rest, later, many, sound) = start_lines-Lines pcts in
      (
        circulating pct (supply_at config pct) ∷ ls ++ rest,
        rw (returned, later, start_lines),
        omega (arith, length-append ls rest, three, many),
        (tt, All-append IsSound ls rest first sound),
      )

  -- The tokens bought first are worth at least their cost once more are out.
  sale_value :
      (tokens future : ℕ)
      → tokens < future
      → reserve_integral tokens config
        ≤ reserve_integral future config - reserve_integral (future - tokens) config
  sale_value tokens future fewer =
      let same : tokens + (future - tokens) ≡ future = omega arith in
      omega (arith, rw same at (reserve_integral_add config tokens (future - tokens)))

  module _ (tokens : ℕ) (is_best : IsBestBuy (sol_amount 5) 0 config tokens) where
    sale_lines-IsSound : (pcts : List ℕ) → All IsSound (sale_lines js config tokens pcts)
    unfolding sale_lines
    sale_lines-IsSound [] = tt
    sale_lines-IsSound (pct ∷ pcts) =
        let rest = sale_lines-IsSound pcts in
        let future = supply_at config pct in
        if_given (All IsSound) (ltb tokens future)
          (λ fewer.
            ((is_best, sale_value tokens future (ltb→lt tokens future fewer), omega arith), rest))
          rest

    early_lines-IsSound : All IsSound (early_lines js config tokens)
    unfolding early_lines
    early_lines-IsSound =
        if_intro (All IsSound) (ltb 0 tokens) (is_best, sale_lines-IsSound (10 ∷ 25 ∷ 50 ∷ [])) tt

  module _ (buys : List (Line js)) (tokens : ℕ) where
    abbrev quotes : List (Line js)
    quotes = heading config ∷ price_lines js config ++ reserve_lines js config

    quotes-IsSound : All IsSound quotes
    quotes-IsSound =
        All-append IsSound (heading config ∷ price_lines js config) (reserve_lines js config)
          (
            tt,
            map-All IsSound (price_line js config) (λ pct. tt)
                (0 ∷ 1 ∷ 5 ∷ 10 ∷ 25 ∷ 50 ∷ 75 ∷ 100 ∷ []),
          )
          (map-All IsSound (reserve_line js config) (λ pct. tt) (10 ∷ 25 ∷ 50 ∷ 75 ∷ 100 ∷ []))

    report-IsSound :
        All IsSound buys
        → IsBestBuy (sol_amount 5) 0 config tokens
        → All IsSound (report js config buys tokens)
    report-IsSound bought is_best =
        let early = early_lines js config tokens in
        let traded = All-append IsSound quotes buys quotes-IsSound bought in
        let sold =
          All-append IsSound (quotes ++ buys) early traded (early_lines-IsSound tokens is_best) in
        All-append IsSound (quotes ++ buys ++ early) (multiplier_lines js config) sold
          (map-All IsSound (multiplier_line js config) (λ pct. tt) (10 ∷ 25 ∷ 50 ∷ []))

    report-long : length buys ≡ 16 → 33 ≤ length (report js config buys tokens)
    report-long sixteen =
        let early = early_lines js config tokens in
        omega (
          arith,
          length-append (quotes ++ buys ++ early) (multiplier_lines js config),
          length-append (quotes ++ buys) early,
          length-append quotes buys,
        )

  -- For every configuration the simulation ends with a report of at least 33 lines, in which each
  -- purchase shows the best buy for its dollars, the tokens of the first buyer are the best buy
  -- from an empty curve, and each of their later sales shows at least what they cost and at most
  -- the reserve it is sold at.
  pub simulate-IsSound :
      (ls : List (Line js)) × (simulate js config ≡ some ls) × (33 ≤ length ls) × All IsSound ls
  unfolding simulate
  simulate-IsSound =
      let (buys, returned, sixteen, bought) = start_lines-Lines (0 ∷ 10 ∷ 25 ∷ 50 ∷ []) in
      let (tokens, first, is_best) = tokens_out-IsBestBuy (sol_amount 5) 0 config in
      (
        report js config buys tokens,
        rw (returned, first, simulate),
        report-long buys tokens sixteen,
        report-IsSound buys tokens bought is_best,
      )
