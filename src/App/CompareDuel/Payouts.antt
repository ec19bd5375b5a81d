-- ===== src/App/CompareDuel/Payouts.antt =====
-- The percentages and payouts that the page of a compare duel shows, in the numbers of Sdk/Number.
use duel_protocol.Prelude.{
  ℕ, ◌+◌, ◌≤◌, ◌<◌, ◌≡◌, refl, Bool, true, false, Option, none, some, ◌==◌, ◌||◌, ltb, ltb→lt,
  arith, if◌then◌else◌,
}
use duel_protocol.Sdk.Number.{Number, IsRounded}
use duel_protocol.App.CompareDuel.{Deposit}

-- `deposit && !deposit.withdrawn ? deposit.amount.toNumber() : 0`
abbrev pub user_deposit : Option Deposit → ℕ
user_deposit none = 0
user_deposit (some d) = if d.withdrawn then 0 else d.amount

-- The total of the side of the deposit.
abbrev pub user_side_total : ℕ → ℕ → Option Deposit → ℕ
user_side_total side_a_total side_b_total none = 0
user_side_total side_a_total side_b_total (some d) =
    if d.side == 0 then side_a_total else if d.side == 1 then side_b_total else 0

pub record Estimate (js : Number) : Type 0 where
  pub payout_a : js.Num
  pub multiplier_a : js.Num
  pub payout_b : js.Num
  pub multiplier_b : js.Num

module _ (js : Number) where
  abbrev quotient : ℕ → ℕ → js.Num
  quotient m k = js.div (js.of_nat m) (js.of_nat k)

  unfoldable pub pct_a : ℕ → ℕ → js.Num
  pct_a side_a_total side_b_total =
      let total_pool = side_a_total + side_b_total in
      if ltb 0 total_pool
      then js.mul (quotient side_a_total total_pool) (js.of_nat 100)
      else js.of_nat 50

  -- `payoutA` and `payoutB`, for a side.
  unfoldable pub payout : ℕ → ℕ → js.Num
  payout total_pool side_total =
      if total_pool == 0 || side_total == 0 then js.of_nat 0 else quotient total_pool side_total

  unfoldable pub user_pct_of_side : ℕ → ℕ → js.Num
  user_pct_of_side deposit side_total =
      if ltb 0 side_total then js.mul (quotient deposit side_total) (js.of_nat 100) else js.of_nat 0

  unfoldable pub user_potential_payout : ℕ → ℕ → ℕ → js.Num
  user_potential_payout deposit side_total total_pool =
      if ltb 0 side_total
      then js.mul (quotient deposit side_total) (js.of_nat total_pool)
      else js.of_nat 0

  -- `sol` is `parseFloat(amount)`, `none` where it is NaN.
  unfoldable pub estimate : Option js.Num → ℕ → ℕ → Option (Estimate js)
  estimate none side_a_total side_b_total = none
  estimate (some sol) side_a_total side_b_total =
      let total_pool = side_a_total + side_b_total in
      if js.le sol (js.of_nat 0) || total_pool == 0
      then none
      else (let lamports = js.mul sol (js.of_nat 1000000000) in
          let new_total_pool = js.add (js.of_nat total_pool) lamports in
          let est_a =
            js.mul (js.div lamports (js.add (js.of_nat side_a_total) lamports)) new_total_pool in
          let est_b =
            js.mul (js.div lamports (js.add (js.of_nat side_b_total) lamports)) new_total_pool in
          some (record {
            payout_a = est_a;
            multiplier_a = js.div est_a lamports;
            payout_b = est_b;
            multiplier_b = js.div est_b lamports;
          }))

module _ (js : Number) (law : IsRounded js) where
  -- A share of a whole lies between nothing and all of it.
  share_bounds :
      (part whole k : ℕ)
      → part ≤ whole
      → 0 < whole
      → (js.le (js.of_nat 0) (js.mul (quotient js part whole) (js.of_nat k)) ≡ true)
        × (js.le (js.mul (quotient js part whole) (js.of_nat k)) (js.of_nat k) ≡ true)
  share_bounds part whole k within some_whole =
      let share = quotient js part whole in
      let unit =
        law.div_unit (js.of_nat part) (js.of_nat whole) (law.of_nat_mono 0 part (omega arith))
          (law.of_nat_mono part whole within) (law.of_nat_zero whole (omega arith)) in
      let low = law.mul_mono k (js.of_nat 0) share unit.0 in
      let high = law.mul_mono k share (js.of_nat 1) unit.1 in
      (
        rw (law.mul_comm (js.of_nat k) share, law.mul_zero (js.of_nat k)) at low,
        rw (law.mul_comm (js.of_nat k) share, law.mul_one (js.of_nat k)) at high,
      )

  between :
      (b : Bool) (x y top : js.Num)
      → (b ≡ true → (js.le (js.of_nat 0) x ≡ true) × (js.le x top ≡ true))
      → (js.le (js.of_nat 0) y ≡ true) × (js.le y top ≡ true)
      → (js.le (js.of_nat 0) (if b then x else y) ≡ true) × (js.le (if b then x else y) top ≡ true)
  between true x y top h k = h refl
  between false x y top h k = k

  -- The percentage shown for side A lies between 0 and 100.
  pct_a_bounds :
      (a b : ℕ)
      → (js.le (js.of_nat 0) (pct_a js a b) ≡ true) × (js.le (pct_a js a b) (js.of_nat 100) ≡ true)
  unfolding pct_a
  pct_a_bounds a b =
      between (ltb 0 (a + b)) _ _ _
        (λ some_pool. share_bounds a (a + b) 100 (omega arith) (ltb→lt 0 (a + b) some_pool))
        (law.of_nat_mono 0 50 (omega arith), law.of_nat_mono 50 100 (omega arith))

  -- The payout shown for a deposit that its side counts is at most the whole pool.
  user_potential_payout_bounds :
      (deposit side_total total_pool : ℕ)
      → deposit ≤ side_total
      → (js.le (js.of_nat 0) (user_potential_payout js deposit side_total total_pool) ≡ true)
        × (js.le (user_potential_payout js deposit side_total total_pool) (js.of_nat total_pool)
            ≡ true)
  unfolding user_potential_payout
  user_potential_payout_bounds deposit side_total total_pool counted =
      between (ltb 0 side_total) _ _ _
        (λ some_side.
          share_bounds deposit side_total total_pool counted (ltb→lt 0 side_total some_side))
        (law.le_refl (js.of_nat 0), law.of_nat_mono 0 total_pool (omega arith))
