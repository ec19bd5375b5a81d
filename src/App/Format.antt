-- ===== src/App/Format.antt =====
-- The texts of amounts and durations, app/app/lib/program.ts and app/app/compare/[id]/page.tsx, in the
-- numbers of Sdk/Number.
use duel_protocol.Prelude.{
  ℕ, ◌+◌, ◌≤◌, ◌<◌, ◌≡◌, String, Bool, true, Bool-cases, inl, inr, ◌==◌, arith, if◌then◌else◌,
}
use duel_protocol.Sdk.Number.{Number, IsRounded}

-- `${x.toFixed(digits)}suffix`, `${x}suffix` and `x.toLocaleString()`.
pub data Text (js : Number) : Type 0 where
  fixed : (x : js.Num) (digits : ℕ) (suffix : String) → Text js
  plain : (x : js.Num) (suffix : String) → Text js
  locale : (x : js.Num) → Text js

module _ (js : Number) where
  abbrev of_ratio : ℕ → ℕ → js.Num
  of_ratio m k = js.div (js.of_nat m) (js.of_nat k)

  abbrev ge : js.Num → js.Num → Bool
  ge x y = js.le y x

  -- `total === 0`, for reserves that are not negative.
  unfoldable pub calculate_sentiment : ℕ → ℕ → js.Num
  calculate_sentiment reserve_a reserve_b =
      let total = reserve_a + reserve_b in if total == 0 then js.half else of_ratio reserve_a total

  unfoldable pub format_sol : ℕ → Text js
  format_sol lamports =
      let sol = of_ratio lamports 1000000000 in
      if ge sol (js.of_nat 1000)
      then fixed (js.div sol (js.of_nat 1000)) 1 "K"
      else if ge sol (js.of_nat 1)
      then fixed sol 2 ""
      else if ge sol (of_ratio 1 100)
      then fixed sol 3 ""
      else fixed sol 4 ""

  unfoldable pub format_tokens : js.Num → Text js
  format_tokens amount =
      if ge amount (js.of_nat 1000000)
      then fixed (js.div amount (js.of_nat 1000000)) 1 "M"
      else if ge amount (js.of_nat 1000)
      then fixed (js.div amount (js.of_nat 1000)) 1 "K"
      else locale amount

  unfoldable pub sol_display : js.Num → Text js
  sol_display lamports =
      let sol = js.div lamports (js.of_nat 1000000000) in
      if ge sol (js.of_nat 10000)
      then fixed (js.div sol (js.of_nat 1000)) 1 "K"
      else if ge sol (js.of_nat 100)
      then fixed sol 1 ""
      else if ge sol (js.of_nat 1)
      then fixed sol 2 ""
      else if ge sol (of_ratio 1 100)
      then fixed sol 3 ""
      else fixed sol 4 ""

  -- `x === Math.floor(x) ? `${x}` : x.toFixed(1)`
  abbrev whole_or_fixed : js.Num → String → Text js
  whole_or_fixed x suffix = if js.eq x (js.floor x) then plain x suffix else fixed x 1 suffix

  unfoldable pub format_duration : js.Num → Text js
  format_duration seconds =
      if ge seconds (js.of_nat 3600)
      then whole_or_fixed (js.div seconds (js.of_nat 3600)) " hours"
      else if ge seconds (js.of_nat 60)
      then whole_or_fixed (js.div seconds (js.of_nat 60)) " minutes"
      else plain seconds " seconds"

module _ (js : Number) (law : IsRounded js) where
  of_ratio_bounds :
      (a total : ℕ)
      → a ≤ total
      → 0 < total
      → (js.le (js.of_nat 0) (of_ratio js a total) ≡ true)
        × (js.le (of_ratio js a total) (js.of_nat 1) ≡ true)
  of_ratio_bounds a total within some_total =
      law.div_unit (js.of_nat a) (js.of_nat total) (law.of_nat_mono 0 a (omega arith))
        (law.of_nat_mono a total within) (law.of_nat_zero total (omega arith))

  -- The sentiment lies between 0 and 1.
  calculate_sentiment_bounds :
      (a b : ℕ)
      → (js.le (js.of_nat 0) (calculate_sentiment js a b) ≡ true)
        × (js.le (calculate_sentiment js a b) (js.of_nat 1) ≡ true)
  unfolding calculate_sentiment
  calculate_sentiment_bounds a b = elim (Bool-cases (a + b == 0)) [
    | inl empty ↦ rw empty law.half_unit
    | inr reserves ↦ rw reserves (of_ratio_bounds a (a + b) (omega arith) (ground arith))
  ]
