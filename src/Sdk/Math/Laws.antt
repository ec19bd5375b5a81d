-- ===== src/Sdk/Math/Laws.antt =====
-- The SDK's quotes under rounded arithmetic.
use duel_protocol.Prelude.{
  ℕ, ◌+◌, ◌-◌, ◌≤◌, ◌≡◌, ◌≢◌, refl, some, true, false, sym, ◌∙◌, leb, leb→le, ◌==◌, ltb, arith,
  Bool-cases, inl, inr, some-inj,
}
use duel_protocol.Curve.Bisect.{IsDownward, search_IsLargest}
use duel_protocol.Sdk.Number.{Number, IsRounded}
use duel_protocol.Sdk.Math.{
  calculate_price, calculate_reserve, pays_for, calculate_tokens_out, calculate_quote_out,
  calculate_sentiment,
}

module _ (js : Number) where
  -- The quote pays for `r` of the tokens for sale, and for no larger number of them.
  pub record IsBestQuote (quote : js.Num) (supply total r : ℕ) : Type 0 where
    pub pays : pays_for js quote supply r ≡ true
    pub for_sale : r ≤ total - supply
    pub best : (m : ℕ) → m ≤ total - supply → pays_for js quote supply m ≡ true → m ≤ r

module _ (js : Number) (law : IsRounded js) where
  open js use {Num, of_nat, le, sub, eq}

  -- Under the rounding laws the price does not fall as the supply grows.
  pub calculate_price_mono :
      (m k : ℕ) → m ≤ k → le (calculate_price js m) (calculate_price js k) ≡ true
  unfolding calculate_price
  calculate_price_mono m k h = law.floor_mono _ _ (
      law.add_mono _ _ _ _
        (law.div_mono _ _ _ (law.of_nat_mono 1 1000000000 (omega arith))
          (law.mul_mono 1 _ _ (law.pow_mono m k 2 h)))
        (law.le_refl _))

  -- Nor does the reserve.
  pub calculate_reserve_mono :
      (m k : ℕ) → m ≤ k → le (calculate_reserve js m) (calculate_reserve js k) ≡ true
  unfolding calculate_reserve
  calculate_reserve_mono m k h = law.floor_mono _ _ (
      law.add_mono _ _ _ _
        (law.div_mono _ _ _ (law.large 3 (omega arith)) (law.mul_mono 1 _ _ (law.pow_mono m k 3 h)))
        (law.mul_mono 1 _ _ (law.of_nat_mono m k h)))

  module _ (quote : Num) (supply total : ℕ) (nonneg : le (of_nat 0) quote ≡ true) where
    pays_for-IsDownward : IsDownward (pays_for js quote supply)
    pays_for-IsDownward m k h fit =
        law.le_trans _ _ _
          (law.sub_mono _ _ _ (calculate_reserve_mono (supply + m) (supply + k) (omega arith))) fit

    pays_for-zero : pays_for js quote supply 0 ≡ true
    pays_for-zero =
        let none_added : supply + 0 ≡ supply = omega arith in
        rw (pays_for, none_added) (rw (law.sub_self (calculate_reserve js supply)) nonneg)

    -- Under the rounding laws, for a quote that is positive the search returns, and its result is
    -- the largest amount for sale whose computed cost is within the quote.
    pub calculate_tokens_out-IsBestQuote :
        eq quote (of_nat 0) ≢ true
        → (r : ℕ) × (calculate_tokens_out js quote supply total ≡ some r)
          × IsBestQuote js quote supply total r
    unfolding calculate_tokens_out
    calculate_tokens_out-IsBestQuote positive = elim (Bool-cases (eq quote (of_nat 0))) [
      | inl nought ↦ absurd (positive nought)
      | inr some_quote ↦ rw some_quote (elim (Bool-cases (leb (total - supply) 0)) [
        | inl sold_out ↦ (
          0,
          rw sold_out refl,
          record {
            pays = pays_for-zero;
            for_sale = omega arith;
            best = λ m h fit. ground (arith, leb→le (total - supply) 0 sold_out);
          },
        )
        | inr open_range ↦ rw open_range (
            let (r, returned, found) =
              search_IsLargest (pays_for js quote supply) pays_for-IsDownward (total - supply)
                pays_for-zero in
            (
              r,
              returned,
              record { pays = found.fits_here; for_sale = found.within; best = found.largest },
            ))
      ])
    ]

    pays_of_return :
        (r : ℕ)
        → calculate_tokens_out js quote supply total ≡ some r
        → pays_for js quote supply r ≡ true
    unfolding calculate_tokens_out
    pays_of_return r bought = elim (Bool-cases (eq quote (of_nat 0))) [
      | inl nought ↦
          let none_out : 0 ≡ r = some-inj (rw nought at bought) in rw (← none_out) pays_for-zero
      | inr some_quote ↦
          let (r', returned, found) = calculate_tokens_out-IsBestQuote (λ e. cc) in
          let same : r' ≡ r = some-inj (sym returned ∙ bought) in rw same at found.pays
    ]

    -- Under the rounding laws, for a quote that is not negative, selling what the quote has just
    -- bought succeeds and returns at most the quote.
    pub quote_round_trip :
        (r : ℕ)
        → calculate_tokens_out js quote supply total ≡ some r
        → (back : Num) × (calculate_quote_out js r (supply + r) ≡ some back)
          × (le back quote ≡ true)
    unfolding calculate_quote_out
    quote_round_trip r bought = elim (Bool-cases (r == 0)) [
      | inl nothing ↦ (of_nat 0, rw nothing refl, nonneg)
      | inr something ↦
          let enough : ltb (supply + r) r ≡ false = ground arith in
          let restored : supply + r - r ≡ supply = omega arith in
          (
            js.floor (sub (calculate_reserve js (supply + r)) (calculate_reserve js supply)),
            rw (something, enough, restored) refl,
            law.le_trans _ _ _ (law.floor_le _) (pays_of_return r bought),
          )
    ]

  -- Under the rounding laws, for prices that are not negative the sentiment is between 0 and 1.
  pub calculate_sentiment_bounds :
      (price_a price_b : Num)
      → le (of_nat 0) price_a ≡ true
      → le (of_nat 0) price_b ≡ true
      → (le (of_nat 0) (calculate_sentiment js price_a price_b) ≡ true)
        × (le (calculate_sentiment js price_a price_b) (of_nat 1) ≡ true)
  unfolding calculate_sentiment
  calculate_sentiment_bounds price_a price_b ha hb =
      elim (Bool-cases (eq (js.add price_a price_b) (of_nat 0))) [
        | inl nought ↦ rw nought law.half_unit
        | inr some_total ↦ rw some_total (law.div_unit _ _ ha (law.le_add _ _ hb) (λ e. cc))
      ]
