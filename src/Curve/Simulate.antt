-- ===== src/Curve/Simulate.antt =====
-- The report of scripts/curve-sim.ts: `simulate`, its formatting helpers and the configurations that
-- it is run on. A line of the report holds the numbers that it prints or computes them from; `shown`
-- has its texts. Titles are left out. No number here is near the size at which a `bigint` throws, so
-- the branches that print OVERFLOW are not reached.
pub mod Laws
mod Tests
use duel_protocol.Prelude.{
  ℕ, ◌+◌, ◌-◌, ◌*◌, ◌/◌, String, Bool, true, false, Option, none, some, List, [], ◌∷◌, ◌++◌, map,
  ltb, not, if◌then◌else◌,
}
use duel_protocol.Sdk.Number.{Number}
use duel_protocol.Curve.{CurveConfig, price, reserve_integral, tokens_out}

abbrev pub sol_price_usd : ℕ
sol_price_usd = 150

-- `prefix${x.toFixed(digits)}suffix`
pub data Text (js : Number) : Type 0 where
  fixed : (prefix : String) (x : js.Num) (digits : ℕ) (suffix : String) → Text js

-- The lines after the titles. `start` is the supply that a purchase starts from, `usd` the dollars
-- that pay for it, and `tokens` what they buy.
pub data Line (js : Number) : Type 0 where
  heading : (config : CurveConfig) → Line js
  price_level : (pct supply p : ℕ) → Line js
  reserve_level : (pct r : ℕ) → Line js
  circulating : (pct start : ℕ) → Line js
  purchase : (start usd tokens : ℕ) (share : js.Num) → Line js
  first_buyer : (usd tokens : ℕ) → Line js
  early_sale : (pct future tokens value : ℕ) (roi : js.Num) → Line js
  multiplier : (pct : ℕ) (multiple : js.Num) → Line js

-- `BigInt(Math.floor((usd / SOL_PRICE_USD) * 1e9))`; for the amounts below the doubles round down to
-- the same lamports.
abbrev pub sol_amount : ℕ → ℕ
sol_amount usd = usd * 1000000000 / sol_price_usd

abbrev pub supply_at : CurveConfig → ℕ → ℕ
supply_at config pct = config.total_supply * pct / 100

module _ (js : Number) where
  abbrev lt : js.Num → js.Num → Bool
  lt x y = not (js.le y x)

  abbrev quotient : ℕ → ℕ → js.Num
  quotient m k = js.div (js.of_nat m) (js.of_nat k)

  unfoldable pub to_human_tokens : ℕ → ℕ → Text js
  to_human_tokens raw decimals =
      let whole = js.div (js.of_nat raw) (js.pow (js.of_nat 10) (js.of_nat decimals)) in
      if js.le (js.of_nat 1000000) whole
      then fixed "" (js.div whole (js.of_nat 1000000)) 1 "M"
      else if js.le (js.of_nat 1000) whole
      then fixed "" (js.div whole (js.of_nat 1000)) 1 "K"
      else fixed "" whole (if ltb 0 decimals then 2 else 0) ""

  unfoldable pub lamports_to_sol : ℕ → Text js
  lamports_to_sol lamports =
      let sol = quotient lamports 1000000000 in
      if lt sol (quotient 1 1000)
      then fixed "" sol 9 " SOL"
      else if lt sol (js.of_nat 1)
      then fixed "" sol 6 " SOL"
      else if js.le (js.of_nat 1000) sol
      then fixed "" sol 0 " SOL"
      else fixed "" sol 3 " SOL"

  unfoldable pub usd_from_lamports : ℕ → Text js
  usd_from_lamports lamports =
      let usd = js.mul (quotient lamports 1000000000) (js.of_nat sol_price_usd) in
      if lt usd (quotient 1 100)
      then fixed "$" usd 6 ""
      else if lt usd (js.of_nat 1)
      then fixed "$" usd 4 ""
      else fixed "$" usd 2 ""

  -- The texts of a line, without the whole numbers and the padding around them.
  unfoldable pub shown : CurveConfig → Line js → List (Text js)
  shown config (heading c) = to_human_tokens c.total_supply c.decimals ∷ []
  shown config (price_level pct supply p) =
      to_human_tokens supply config.decimals ∷ lamports_to_sol p ∷ usd_from_lamports p ∷ []
  shown config (reserve_level pct r) = lamports_to_sol r ∷ usd_from_lamports r ∷ []
  shown config (circulating pct start) = to_human_tokens start config.decimals ∷ []
  shown config (purchase start usd tokens share) =
      to_human_tokens tokens config.decimals ∷ fixed "" share 2 "% of supply" ∷ []
  shown config (first_buyer usd tokens) = to_human_tokens tokens config.decimals ∷ []
  shown config (early_sale pct future tokens value roi) =
      lamports_to_sol value ∷ usd_from_lamports value ∷ fixed "" roi 0 "% ROI" ∷ []
  shown config (multiplier pct multiple) = fixed "" multiple 1 "x price increase" ∷ []

  module _ (config : CurveConfig) where
    abbrev pub price_line : ℕ → Line js
    price_line pct =
        let supply = supply_at config pct in price_level pct supply (price supply config)

    abbrev pub reserve_line : ℕ → Line js
    reserve_line pct = reserve_level pct (reserve_integral (supply_at config pct) config)

    abbrev pub buy_line : ℕ → ℕ → ℕ → Line js
    buy_line start usd tokens =
        purchase start usd tokens (js.mul (quotient tokens config.total_supply) (js.of_nat 100))

    -- The rounds of `for (const usd of buyAmountsUSD)`.
    unfoldable pub buy_lines : ℕ → List ℕ → Option (List (Line js))
    buy_lines start [] = some []
    buy_lines start (usd ∷ usds) =
        elim (tokens_out (sol_amount usd) start config) as (λ o. Option (List (Line js))) [
          | none ↦ none
          | some tokens ↦ elim (buy_lines start usds) as (λ o. Option (List (Line js))) [
            | none ↦ none
            | some ls ↦ some (buy_line start usd tokens ∷ ls)
          ]
        ]

    -- The rounds of `for (const startPct of startLevels)`.
    unfoldable pub start_lines : List ℕ → Option (List (Line js))
    start_lines [] = some []
    start_lines (pct ∷ pcts) =
        let start = supply_at config pct in
        elim (buy_lines start (5 ∷ 50 ∷ 500 ∷ [])) as (λ o. Option (List (Line js))) [
          | none ↦ none
          | some ls ↦ elim (start_lines pcts) as (λ o. Option (List (Line js))) [
            | none ↦ none
            | some rest ↦ some (circulating pct start ∷ ls ++ rest)
          ]
        ]

    -- `if (futureSupply > earlyTokens)`
    unfoldable pub sale_lines : ℕ → List ℕ → List (Line js)
    sale_lines tokens [] = []
    sale_lines tokens (pct ∷ pcts) =
        let future = supply_at config pct in
        let value = reserve_integral future config - reserve_integral (future - tokens) config in
        let roi = js.mul (js.sub (quotient value (sol_amount 5)) (js.of_nat 1)) (js.of_nat 100) in
        let rest = sale_lines tokens pcts in
        if ltb tokens future then early_sale pct future tokens value roi ∷ rest else rest

    unfoldable pub early_lines : ℕ → List (Line js)
    early_lines tokens =
        if ltb 0 tokens then first_buyer 5 tokens ∷ sale_lines tokens (10 ∷ 25 ∷ 50 ∷ []) else []

    abbrev pub multiplier_line : ℕ → Line js
    multiplier_line pct =
        multiplier pct (quotient (price (supply_at config pct) config) (price 1 config))

    abbrev pub price_lines : List (Line js)
    price_lines = map price_line (0 ∷ 1 ∷ 5 ∷ 10 ∷ 25 ∷ 50 ∷ 75 ∷ 100 ∷ [])

    abbrev pub reserve_lines : List (Line js)
    reserve_lines = map reserve_line (10 ∷ 25 ∷ 50 ∷ 75 ∷ 100 ∷ [])

    abbrev pub multiplier_lines : List (Line js)
    multiplier_lines = map multiplier_line (10 ∷ 25 ∷ 50 ∷ [])

    -- The whole report, from the lines of the purchases and what the first buyer gets.
    abbrev pub report : List (Line js) → ℕ → List (Line js)
    report buys early_tokens =
        heading config ∷ price_lines
        ++ reserve_lines
        ++ buys
        ++ early_lines early_tokens
        ++ multiplier_lines

  -- `none` would mean that the search of `tokensOut` does not end.
  unfoldable pub simulate : CurveConfig → Option (List (Line js))
  simulate config =
      elim (start_lines config (0 ∷ 10 ∷ 25 ∷ 50 ∷ [])) as (λ o. Option (List (Line js))) [
        | none ↦ none
        | some buys ↦ elim (tokens_out (sol_amount 5) 0 config) as (λ o. Option (List (Line js))) [
          | none ↦ none
          | some early_tokens ↦ some (report config buys early_tokens)
        ]
      ]

abbrev config : String → ℕ → ℕ → ℕ → ℕ → ℕ → CurveConfig
config name a n b total_supply decimals = record {
  name = name;
  a = a;
  n = n;
  b = b;
  total_supply = total_supply;
  decimals = decimals;
}

abbrev pub configs : List CurveConfig
configs =
    config "CURRENT (linear, 1K tokens, 6 dec)" 1000000 1 1000 1000000000 6
    ∷ config "QUADRATIC (100K tokens, 0 dec)" 1000000 2 100 100000 0
    ∷ config "QUADRATIC GENTLE (100K tokens, 0 dec)" 100 2 100 100000 0
    ∷ config "LINEAR (1M tokens, 0 dec)" 1 1 100 1000000 0
    ∷ config "QUADRATIC (1M tokens, 0 dec)" 1 2 1 1000000 0
    ∷ config "PUMP-FEEL (10M tokens, 0 dec)" 1 2 1 10000000 0
    ∷ config "PUMP-FEEL-100M (100M tokens, 0 dec)" 1 2 1 100000000 0
    ∷ []
