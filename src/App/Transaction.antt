-- ===== src/App/Transaction.antt =====
-- The transactions that the pages of app/app assemble, and what an attempt to send one comes to.
use duel_protocol.Prelude.{ℕ, Bool, List, [], ◌∷◌, ◌++◌, if◌then◌else◌}
use duel_protocol.Sdk.Solana.{PublicKey}
use duel_protocol.Sdk.Client.{Instruction, PreInstruction, create_associated_token_account}

-- `SystemProgram.transfer` by payer, receiver and lamports, `createSyncNativeInstruction`, and the
-- creation of a token account or another instruction sent before (`prepare`).
pub data Step : Type 0 where
  prepare : PreInstruction → Step
  transfer : PublicKey → PublicKey → ℕ → Step
  sync_native : PublicKey → Step
  call : Instruction → Step

-- A handler returns at once, fails before it sends, or sends a transaction, which is confirmed or
-- not. Once confirmed, the form is cleared and the page fetches again.
pub data Attempt : Type 0 where
  ignored failed : Attempt
  submitted : List Step → Bool → Attempt

-- `getAccount` in a `try`, whose `catch` adds the creation of the account (account, owner, mint);
-- `has_account` is whether it returns.
unfoldable pub add_missing : (PublicKey → Bool) → PublicKey → PublicKey → PublicKey → List Step
add_missing has_account ata owner mint =
    if has_account ata
    then []
    else prepare (create_associated_token_account owner ata owner mint) ∷ []

-- The steps that wrap SOL: the account if it is missing, then the transfer and its sync.
unfoldable pub wrap_sol : (PublicKey → Bool) → PublicKey → PublicKey → PublicKey → ℕ → List Step
unfolding add_missing
wrap_sol has_account wsol_ata owner native lamports =
    add_missing has_account wsol_ata owner native
    ++ transfer owner wsol_ata lamports ∷ sync_native wsol_ata ∷ []
