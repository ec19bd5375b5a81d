-- ===== src/Sdk/Math/Fees.antt =====
-- The split of a trade fee.
use duel_protocol.Prelude.{ℕ, ◌*◌, ◌/◌, ◌≤◌, ◌≡◌, arith}
use duel_protocol.Prelude.Int.{pos, ◌+ℤ◌, ◌≤ℤ◌}
use duel_protocol.Curve.Laws.{mul_mono}
use duel_protocol.Sdk.Math.{calculate_trade_fee, bps_denominator}

-- The two fees and the net amount add up to the amount, for any shares.
pub calculate_trade_fee-conserves :
    (amount fee_bps creator_split_bps : ℕ)
    → let t = calculate_trade_fee amount fee_bps creator_split_bps in
      t.protocol_fee +ℤ pos t.creator_fee +ℤ t.net_amount ≡ pos amount
unfolding calculate_trade_fee
calculate_trade_fee-conserves amount fee_bps creator_split_bps = ground arith

share_le : (x bps : ℕ) → bps ≤ 10000 → x * bps / 10000 ≤ x
share_le x bps h = omega (arith, mul_mono x x bps 10000 (omega arith) h)

-- With shares of at most 100% the protocol fee and the net amount are not negative, and the fees
-- are within the fee rate.
pub calculate_trade_fee_bounds :
    (amount fee_bps creator_split_bps : ℕ)
    → fee_bps ≤ bps_denominator
    → creator_split_bps ≤ bps_denominator
    → let t = calculate_trade_fee amount fee_bps creator_split_bps in
      (pos 0 ≤ℤ t.protocol_fee)
      × (pos 0 ≤ℤ t.net_amount)
      × (t.protocol_fee +ℤ pos t.creator_fee ≤ℤ pos (amount * fee_bps / bps_denominator))
unfolding calculate_trade_fee
calculate_trade_fee_bounds amount fee_bps creator_split_bps h k =
    ground
      (arith, share_le amount fee_bps h, share_le (amount * fee_bps / 10000) creator_split_bps k)
