-- ===== src/App/CompareDuel/Offers.antt =====
-- What the page offers against what the program accepts.
use duel_protocol.Prelude.{
  ℕ, ◌+◌, ◌*◌, ◌/◌, ◌%◌, ◌^◌, ◌≤◌, ◌<◌, ◌≡◌, ◌↔◌, refl, Option, none, some, Bool, true, false, [],
  ◌∷◌, arith, ◌==◌, ◌&&◌, not, if◌then◌else◌,
}
use duel_protocol.Sdk.Solana.{PublicKey}
use duel_protocol.Sdk.Client.{pick}
use duel_protocol.App.{get_compare_phase}
use duel_protocol.App.CompareDuel.{
  CompareDuel, Deposit, can_deposit, can_withdraw, may_claim, pool_vault_of,
}
use duel_protocol.App.CompareDuel.Gates.{State, same_key, accepts_deposit, payout, withdraw}

-- The page's duel is the chain's. The status stays active until a price is sampled, which the
-- program allows from the start of the window on.
pub record IsShown (now : ℕ) (duel : CompareDuel) (s : State) : Type 0 where
  pub deadline : duel.schedule.deadline ≡ s.deadline
  pub twap_window : duel.schedule.twap_window ≡ s.twap_window
  pub status : duel.schedule.is_resolved ≡ s.is_resolved
  pub winner : duel.winner ≡ s.winner
  pub vault_a : duel.pool_vault_a ≡ s.pool_vault_a
  pub vault_b : duel.pool_vault_b ≡ s.pool_vault_b
  pub one_status : (s.is_active && s.is_resolved) ≡ false
  pub before_window : now + s.twap_window < s.deadline → s.is_resolved ≡ false → s.is_active ≡ true

same_key_refl : (k : PublicKey) → same_key k k ≡ true
unfolding same_key
same_key_refl [] = refl
same_key_refl (x ∷ xs) = ground (arith, same_key_refl xs)

abbrev pub is_recorded : Option Deposit → Bool
is_recorded none = false
is_recorded (some d) = true

-- While the protocol is not paused, for a duel and a record of the deposit as the chain keeps
-- them, a side and an amount of at least the minimum, the page offers a deposit exactly when the
-- guards on the configuration, the duel, the record, the side, the amount, the clock and the vault
-- accept one on the vault that the page passes.
pub can_deposit-accepts_deposit_iff :
    (paused has_record : Bool) (now_ms : ℕ) (duel : CompareDuel) (s : State)
    (deposit : Option Deposit) (side amount : ℕ)
    → paused ≡ false
    → is_recorded deposit ≡ has_record
    → IsShown (now_ms / 1000) duel s
    → side ≤ 1
    → s.min_deposit ≤ amount
    → (can_deposit now_ms duel deposit ≡ true) ↔ (
        accepts_deposit paused
          (now_ms / 1000)
          s
          has_record
          side
          amount
          (pick side duel.pool_vault_a duel.pool_vault_b)
        ≡ true)
unfolding can_deposit accepts_deposit get_compare_phase
can_deposit-accepts_deposit_iff paused has_record now_ms duel s none side amount open' found shown
      valid enough =
    rw (shown.vault_a, shown.vault_b, same_key_refl (pick side s.pool_vault_a s.pool_vault_b))
      (ground (arith, shown))
can_deposit-accepts_deposit_iff paused has_record now_ms duel s (some d) side amount open' found
      shown valid enough =
    ground arith

-- While the protocol is paused no deposit is accepted, though the page does not ask.
accepts_deposit_paused :
    (now : ℕ) (s : State) (has_record : Bool) (side amount : ℕ) (vault : PublicKey)
    → accepts_deposit true now s has_record side amount vault ≡ false
unfolding accepts_deposit
accepts_deposit_paused now s has_record side amount vault = refl

-- The deposit is refunded after a draw, and else gets its share of the pool.
unfoldable pub fair_share : State → ℕ → Option ℕ → ℕ
fair_share s amount none = amount
fair_share s amount (some side) =
    amount * s.net_pool / (if side == 0 then s.side_a_total else s.side_b_total)

-- The totals of the side hold the deposit, and the pool is a 64-bit amount.
pub record IsFunded (s : State) (deposit : Deposit) : Type 0 where
  pub some_amount : 0 < deposit.amount
  pub counted : deposit.amount ≤ (if deposit.side == 0 then s.side_a_total else s.side_b_total)
  pub fits : s.net_pool < 2 ^ 64

share_bound : (a n t : ℕ) → a ≤ t → 0 < t → a * n / t ≤ n
share_bound a n t le pos = grind arith

share_exact :
    (a n t : ℕ)
    → 0 < a
    → a ≤ t
    → n < 2 ^ 64
    → (if t == 0 then none else some (a * n / t % 2 ^ 64)) ≡ some (a * n / t)
share_exact a n t pos le fits =
    let bound = share_bound a n t le (omega arith) in
    let same : a * n / t % 2 ^ 64 ≡ a * n / t = omega (arith, bound, fits) in
    let nonzero : (t == 0) ≡ false = ground arith in rw (nonzero, same) refl

own_side : (w side : ℕ) → may_claim (some w) side ≡ true → side ≡ w
unfolding may_claim
own_side w side claim = ground arith

eq_refl : (n : ℕ) → (n == n) ≡ true
eq_refl n = ground arith

payout-fair_share :
    (s : State) (deposit : Deposit) (w : Option ℕ)
    → IsFunded s deposit
    → may_claim w deposit.side ≡ true
    → payout s w deposit.side deposit.amount
        (pool_vault_of w deposit.side s.pool_vault_a s.pool_vault_b)
      ≡ some (fair_share s deposit.amount w)
unfolding payout may_claim pool_vault_of fair_share
payout-fair_share s deposit none funded claims =
    rw (same_key_refl (pick deposit.side s.pool_vault_a s.pool_vault_b)) refl
payout-fair_share s deposit (some w) funded claims =
    let mine = own_side w deposit.side claims in
    let exact =
      share_exact deposit.amount s.net_pool
        (if deposit.side == 0 then s.side_a_total else s.side_b_total) funded.some_amount
        funded.counted funded.fits in
    rw (same_key_refl (pick w s.pool_vault_a s.pool_vault_b))
      (rw⁻¹ mine (rw (eq_refl deposit.side) exact))

-- For a duel resolved on the chain and a deposit that the totals count, whenever the page offers a
-- withdrawal the program accepts it on the vault that the page passes, and pays the deposit after
-- a draw and its whole share of the net pool otherwise.
pub can_withdraw-paid :
    (now_ms : ℕ) (duel : CompareDuel) (s : State) (deposit : Deposit)
    → IsShown (now_ms / 1000) duel s
    → IsFunded s deposit
    → s.is_resolved ≡ true
    → can_withdraw now_ms duel (some deposit) ≡ true
    → withdraw s deposit.withdrawn deposit.side deposit.amount
        (pool_vault_of duel.winner deposit.side duel.pool_vault_a duel.pool_vault_b)
      ≡ some (fair_share s deposit.amount s.winner)
unfolding can_withdraw withdraw
can_withdraw-paid now_ms duel s deposit shown funded done offered =
    let claims : may_claim duel.winner deposit.side ≡ true = ground (arith, offered) in
    let claims' : may_claim s.winner deposit.side ≡ true = rw shown.winner at claims in
    let fresh : deposit.withdrawn ≡ false = ground (arith, offered) in
    let open' : (s.is_resolved && not deposit.withdrawn) ≡ true = ground (arith, done, fresh) in
    rw (shown.vault_a, shown.vault_b, shown.winner)
      (simp open' (payout-fair_share s deposit s.winner funded claims'))
