-- ===== src/Sdk/Math.antt =====
-- The math helpers of sdk/src/client.ts. Counts of tokens are whole numbers far below 2^53, so
-- sums and differences of counts are exact; prices, reserves and amounts are doubles.
pub mod Laws
pub mod Whole
pub mod Fees
mod Tests
use duel_protocol.Prelude.{
  ℕ, ◌+◌, ◌-◌, ◌*◌, ◌/◌, Option, none, some, Bool, leb, ltb, ◌==◌, if◌then◌else◌,
}
use duel_protocol.Prelude.Int.{ℤ, pos, sub_ℕ}
use duel_protocol.Curve.{bisect}
use duel_protocol.Sdk.Number.{Number}

-- sdk/src/constants.ts
abbrev pub curve_a : ℕ
curve_a = 1

abbrev pub curve_n : ℕ
curve_n = 2

abbrev pub curve_b : ℕ
curve_b = 1

abbrev pub curve_scale : ℕ
curve_scale = 1000000000

abbrev pub bps_denominator : ℕ
bps_denominator = 10000

module _ (js : Number) where
  open js use {Num, of_nat, add, sub, mul, div, pow, floor, le, eq, half}

  unfoldable pub calculate_price : ℕ → Num
  calculate_price circulating_supply =
      let term =
        div (mul (of_nat curve_a) (pow (of_nat circulating_supply) (of_nat curve_n)))
          (of_nat curve_scale) in
      floor (add term (of_nat curve_b))

  unfoldable pub calculate_reserve : ℕ → Num
  calculate_reserve supply =
      let n_plus_1 = curve_n + 1 in
      let term1 =
        div (mul (of_nat curve_a) (pow (of_nat supply) (of_nat n_plus_1)))
          (mul (of_nat n_plus_1) (of_nat curve_scale)) in
      let term2 = mul (of_nat curve_b) (of_nat supply) in floor (add term1 term2)

  -- `cost <= quoteAmount` at `mid`.
  abbrev pub pays_for : Num → ℕ → ℕ → Bool
  pays_for quote_amount current_supply mid =
      let r_current = calculate_reserve current_supply in
      let r_new = calculate_reserve (current_supply + mid) in le (sub r_new r_current) quote_amount

  -- `none` would mean that the fuel of the loop ran out. A negative `available` is 0 here.
  unfoldable pub calculate_tokens_out : Num → ℕ → ℕ → Option ℕ
  calculate_tokens_out quote_amount current_supply total_supply =
      let available = total_supply - current_supply in
      if eq quote_amount (of_nat 0)
      then some 0
      else if leb available 0
      then some 0
      else bisect (available + 2) (pays_for quote_amount current_supply) 0 available 0

  -- `none` is the error "Insufficient supply".
  unfoldable pub calculate_quote_out : ℕ → ℕ → Option Num
  calculate_quote_out token_amount current_supply =
      if token_amount == 0
      then some (of_nat 0)
      else if ltb current_supply token_amount
      then none
      else (let r_current = calculate_reserve current_supply in
          let r_new = calculate_reserve (current_supply - token_amount) in
          some (floor (sub r_current r_new)))

  unfoldable pub calculate_sentiment : Num → Num → Num
  calculate_sentiment price_a price_b =
      let total = add price_a price_b in if eq total (of_nat 0) then half else div price_a total

-- The result of `calculateTradeFee`; the differences may be negative for shares above 100%.
pub record TradeFee : Type 0 where
  pub protocol_fee : ℤ
  pub creator_fee : ℕ
  pub net_amount : ℤ

-- Whole lamports with `amount * feeBps` below 2^53, where the floored quotients are exact.
unfoldable pub calculate_trade_fee : ℕ → ℕ → ℕ → TradeFee
calculate_trade_fee amount fee_bps creator_split_bps =
    let total_fee = amount * fee_bps / bps_denominator in
    let creator_fee' = total_fee * creator_split_bps / bps_denominator in
    record {
      protocol_fee = sub_ℕ total_fee creator_fee';
      creator_fee = creator_fee';
      net_amount = sub_ℕ amount total_fee;
    }
