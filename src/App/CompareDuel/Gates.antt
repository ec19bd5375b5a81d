-- ===== src/App/CompareDuel/Gates.antt =====
-- What the program on the chain demands of deposits and withdrawals, and what it pays: the guards
-- of programs/duel/src/instructions/deposit.rs and withdraw.rs on the configuration, the duel,
-- the record of the deposit, the clock and the vault.
use duel_protocol.Sdk.Solana.{PublicKey}
use duel_protocol.Sdk.Client.{pick}
use duel_protocol.Prelude.{
  ℕ, ◌+◌, ◌*◌, ◌/◌, ◌%◌, ◌^◌, Option, none, some, Bool, true, false, [], ◌∷◌, ltb, leb, ◌==◌, ◌&&◌,
  not, if◌then◌else◌,
}

-- `==` of two keys.
unfoldable pub same_key : PublicKey → PublicKey → Bool
same_key [] [] = true
same_key (x ∷ xs) (y ∷ ys) = x == y && same_key xs ys
same_key _ _ = false

-- `CompareDuel` of the program, with the fields read.
pub record State : Type 0 where
  pub is_active : Bool
  pub is_resolved : Bool
  pub deadline : ℕ
  pub twap_window : ℕ
  pub min_deposit : ℕ
  pub winner : Option ℕ
  pub side_a_total : ℕ
  pub side_b_total : ℕ
  pub net_pool : ℕ
  pub pool_vault_a : PublicKey
  pub pool_vault_b : PublicKey

-- The pause of the protocol, the status, the record of the deposit, which is created and so must not
-- exist yet, the side, the amount, the cutoff and the vault.
unfoldable pub accepts_deposit : Bool → ℕ → State → Bool → ℕ → ℕ → PublicKey → Bool
accepts_deposit paused now duel has_record side amount vault =
    not paused
    && duel.is_active
    && not has_record
    && leb side 1
    && leb duel.min_deposit amount
    && ltb (now + duel.twap_window) duel.deadline
    && same_key vault (pick side duel.pool_vault_a duel.pool_vault_b)

-- The payout of `withdraw`, or `none` where a guard refuses; a zero total fails the division.
-- `as u64` cuts the share.
unfoldable pub payout : State → Option ℕ → ℕ → ℕ → PublicKey → Option ℕ
payout duel none side amount vault =
    if same_key vault (pick side duel.pool_vault_a duel.pool_vault_b) then some amount else none
payout duel (some winning_side) side amount vault =
    let total = if winning_side == 0 then duel.side_a_total else duel.side_b_total in
    if not (side == winning_side)
    then some 0
    else if same_key vault (pick winning_side duel.pool_vault_a duel.pool_vault_b)
    then if total == 0 then none else some (amount * duel.net_pool / total % 2 ^ 64)
    else none

unfoldable pub withdraw : State → Bool → ℕ → ℕ → PublicKey → Option ℕ
unfolding payout
withdraw duel withdrawn side amount vault =
    if duel.is_resolved && not withdrawn then payout duel duel.winner side amount vault else none
