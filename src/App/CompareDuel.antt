-- ===== src/App/CompareDuel.antt =====
-- The page of a compare duel, app/app/compare/[id]/page.tsx: what it offers, what the deposit and
-- withdrawal handlers send, its clock and its progress.
pub mod Gates
pub mod Payouts
pub mod Laws
pub mod Offers
mod Tests
use duel_protocol.Prelude.{
  ℕ, ◌+◌, ◌-◌, ◌/◌, ◌%◌, min, Option, none, some, Bool, true, false, List, [], ◌∷◌, ◌++◌, ltb, leb,
  ◌==◌, ◌&&◌, ◌||◌, not, if◌then◌else◌,
}
use duel_protocol.Sdk.Solana.{PublicKey, Solana, ◌>>=◌}
use duel_protocol.Sdk.Client.{num, ◌⇒◌, Instruction, pick}
use duel_protocol.App.{MarketPhase, active, twap, resolved, Schedule, get_compare_phase}
use duel_protocol.App.Pda.{find_config_pda, find_deposit_pda}
use duel_protocol.App.Duel.{attempt}
use duel_protocol.App.Transaction.{Step, call, Attempt, ignored, add_missing, wrap_sol}

-- The fields of the duel and of the deposit that the page reads.
pub record CompareDuel : Type 0 where
  pub schedule : Schedule
  pub pool_vault_a : PublicKey
  pub pool_vault_b : PublicKey
  pub winner : Option ℕ

pub record Deposit : Type 0 where
  pub side : ℕ
  pub amount : ℕ
  pub withdrawn : Bool

-- `isResolved`
abbrev pub is_resolved : ℕ → CompareDuel → Bool
is_resolved now_ms duel = elim (get_compare_phase now_ms duel.schedule) as (λ p. Bool) [
  | resolved ↦ true
  | active ↦ false
  | twap ↦ false
]

-- `canDeposit`
unfoldable pub can_deposit : ℕ → CompareDuel → Option Deposit → Bool
can_deposit now_ms duel (some deposit) = false
can_deposit now_ms duel none = elim (get_compare_phase now_ms duel.schedule) as (λ p. Bool) [
  | active ↦ true
  | twap ↦ false
  | resolved ↦ false
]

-- `isUserWinner || isDraw`
unfoldable pub may_claim : Option ℕ → ℕ → Bool
may_claim none side = true
may_claim (some winner) side = side == winner

-- `canWithdraw`; `isDraw` asks for a resolved phase too, which stands at the front here.
unfoldable pub can_withdraw : ℕ → CompareDuel → Option Deposit → Bool
unfolding may_claim
can_withdraw now_ms duel none = false
can_withdraw now_ms duel (some deposit) =
    is_resolved now_ms duel && not deposit.withdrawn && may_claim duel.winner deposit.side

-- The vault of a withdrawal, by the winner and the side of the deposit.
unfoldable pub pool_vault_of : Option ℕ → ℕ → PublicKey → PublicKey → PublicKey
pool_vault_of (some winner) side vault_a vault_b = pick winner vault_a vault_b
pool_vault_of none side vault_a vault_b = pick side vault_a vault_b

module _ (sol : Solana) (has_account : PublicKey → Bool) (duel_key : PublicKey)
    (duel : CompareDuel) where
  open sol use {native_mint, token_program_id, system_program_id, get_associated_token_address}

  unfoldable pub deposit_instruction : PublicKey → PublicKey → ℕ → ℕ → Instruction
  deposit_instruction depositor wsol_ata side lamports = record {
    method = "deposit";
    args = num side ∷ num lamports ∷ [];
    accounts =
        "depositor" ⇒ depositor
        ∷ "compareDuel" ⇒ duel_key
        ∷ "depositRecord" ⇒ find_deposit_pda sol duel_key depositor
        ∷ "poolVault" ⇒ pick side duel.pool_vault_a duel.pool_vault_b
        ∷ "depositorWsolAccount" ⇒ wsol_ata
        ∷ "quoteMint" ⇒ native_mint
        ∷ "config" ⇒ find_config_pda sol
        ∷ "systemProgram" ⇒ system_program_id
        ∷ "tokenProgram" ⇒ token_program_id
        ∷ [];
    signers = [];
  }

  unfoldable pub deposit_transaction : PublicKey → ℕ → ℕ → Option (List Step)
  deposit_transaction depositor side lamports = do
    wsol_ata ← get_associated_token_address native_mint depositor false
    some (
        wrap_sol has_account wsol_ata depositor native_mint lamports
        ++ call (deposit_instruction depositor wsol_ata side lamports) ∷ [])

  -- The parsed amount is `none` where `parseFloat` gives NaN or it is not positive.
  unfoldable pub handle_deposit : Option PublicKey → ℕ → Option ℕ → Bool → Attempt
  unfolding deposit_transaction
  handle_deposit (some wallet) side (some lamports) confirmed =
      attempt (deposit_transaction wallet side lamports) confirmed
  handle_deposit _ side _ confirmed = ignored

  unfoldable pub withdraw_instruction : PublicKey → PublicKey → ℕ → Instruction
  unfolding pool_vault_of
  withdraw_instruction depositor wsol_ata side = record {
    method = "withdraw";
    args = [];
    accounts =
        "depositor" ⇒ depositor
        ∷ "compareDuel" ⇒ duel_key
        ∷ "depositRecord" ⇒ find_deposit_pda sol duel_key depositor
        ∷ "poolVault" ⇒ pool_vault_of duel.winner side duel.pool_vault_a duel.pool_vault_b
        ∷ "depositorWsolAccount" ⇒ wsol_ata
        ∷ "quoteMint" ⇒ native_mint
        ∷ "tokenProgram" ⇒ token_program_id
        ∷ [];
    signers = [];
  }

  unfoldable pub withdraw_transaction : PublicKey → ℕ → Option (List Step)
  withdraw_transaction depositor side = do
    wsol_ata ← get_associated_token_address native_mint depositor false
    some (
        add_missing has_account wsol_ata depositor native_mint
        ++ call (withdraw_instruction depositor wsol_ata side) ∷ [])

  unfoldable pub handle_withdraw : Option PublicKey → Option Deposit → Bool → Attempt
  unfolding withdraw_transaction
  handle_withdraw (some wallet) (some deposit) confirmed =
      attempt (withdraw_transaction wallet deposit.side) confirmed
  handle_withdraw _ _ confirmed = ignored

-- What `fetchData` sets: the duel, the deposit and whether the page loads.
pub record Fetched : Type 0 where
  pub duel : Option CompareDuel
  pub deposit : Option Deposit
  pub loading : Bool

-- The duel and the wallet's deposit as fetched, `none` where the fetch throws; a deposit that is not
-- fetched counts as none made, and without a wallet the deposit is kept.
unfoldable pub fetch_data :
    Option CompareDuel → Option PublicKey → Option Deposit → Fetched → Fetched
fetch_data none wallet deposit page = record page { loading = false }
fetch_data (some d) none deposit page = record page { duel = some d; loading = false }
fetch_data (some d) (some key) deposit page = record {
  duel = some d;
  deposit = deposit;
  loading = false;
}

-- The text of `useCountdown` by the numbers in it; `now` is in whole seconds.
pub data Clock : Type 0 where
  unset zero_left : Clock
  days_hours_minutes : ℕ → ℕ → ℕ → Clock
  hours_minutes_seconds : ℕ → ℕ → ℕ → Clock

unfoldable pub use_countdown : ℕ → Option ℕ → Clock
use_countdown now none = unset
use_countdown now (some deadline) =
    let diff = deadline - now in
    let d = diff / 86400 in
    let h = diff % 86400 / 3600 in
    let m = diff % 3600 / 60 in
    if leb deadline now
    then zero_left
    else if ltb 0 d
    then days_hours_minutes d h m
    else hours_minutes_seconds h m (diff % 60)

-- What `twapProgress` shows: the quotient of `elapsed` by the window, and the seconds to the next
-- sample.
pub record Progress : Type 0 where
  pub elapsed : ℕ
  pub current_samples : ℕ
  pub max_samples : ℕ
  pub next_sample_in : ℕ

unfoldable pub twap_progress : ℕ → Schedule → ℕ → ℕ → ℕ → Option Progress
twap_progress now m interval samples last_sample_ts =
    if ltb (now + m.twap_window) m.deadline
    then none
    else some (record {
      elapsed = min (now + m.twap_window - m.deadline) m.twap_window;
      current_samples = samples;
      max_samples = if ltb 0 interval then m.twap_window / interval else 0;
      next_sample_in =
          if ltb 0 interval && ltb 0 last_sample_ts then last_sample_ts + interval - now else 0;
    })
