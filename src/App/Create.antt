-- ===== src/App/Create.antt =====
-- The pages that create a market and a compare duel, app/app/create/page.tsx and
-- app/app/compare/create/page.tsx.
pub mod Market
pub mod Gates
pub mod Laws
mod Tests
use duel_protocol.Prelude.{
  ℕ, ◌+◌, ◌*◌, ◌/◌, max, min, Bool, true, Option, none, some, List, [], ◌∷◌, if◌then◌else◌,
}
use duel_protocol.Sdk.Solana.{PublicKey}
use duel_protocol.Sdk.Client.{
  Instruction, PreInstruction, create_associated_token_account, set_compute_unit_limit,
}
use duel_protocol.App.Transaction.{Step, prepare, call}

-- `deadline`, `twapWindow` and `twapInterval`, from the hours chosen; a quarter of whole seconds is
-- exact in floating point.
unfoldable pub deadline_of : ℕ → ℕ → ℕ
deadline_of now duration_hours = now + duration_hours * 3600

unfoldable pub twap_window_of : ℕ → ℕ
twap_window_of duration_hours = max 60 (min 43200 (duration_hours * 3600 / 4))

unfoldable pub twap_interval_of : ℕ → ℕ
unfolding twap_window_of
twap_interval_of duration_hours = max 10 (twap_window_of duration_hours / 720)

-- The transactions sent, in order: the creator's account for wrapped SOL if it is missing, then,
-- if that one is confirmed, the creation itself. `none` is a call that throws, before the account
-- is known or after.
unfoldable pub send_creation :
    (PublicKey → Bool)
    → Bool
    → PublicKey
    → PublicKey
    → Option PublicKey
    → Option Instruction
    → List (List Step)
send_creation has_account confirmed creator native none ix = []
send_creation has_account confirmed creator native (some fee_account) ix =
    let creation = elim ix as (λ o. List (List Step)) [
      | none ↦ []
      | some call_ix ↦ (prepare (set_compute_unit_limit 400000) ∷ call call_ix ∷ []) ∷ []
    ] in
    if has_account fee_account
    then creation
    else (prepare (create_associated_token_account creator fee_account creator native) ∷ [])
      ∷ (if confirmed then creation else [])
