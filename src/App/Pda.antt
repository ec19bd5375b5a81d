-- ===== src/App/Pda.antt =====
-- The addresses that app/app/lib/program.ts derives, under the app's own program id.
pub mod Laws
mod Tests
use text.Mathlib.Text.{◌==◌ as str_eq}
use duel_protocol.Prelude.{ℕ, String, Option, none, some, List, [], ◌∷◌, if◌then◌else◌}
use duel_protocol.Sdk.Solana.{PublicKey, Solana, codes, ◌>>=◌, token_metadata_program_id}
use duel_protocol.Sdk.Pda.{u64_le, byte}

module _ (sol : Solana) where
  open sol use {find_program_address, public_key}

  abbrev pub app_program_id : PublicKey
  app_program_id = public_key "3kzt4Q7xN2RLzYYx2HfnqZVoAHFAKKa17hTDvXsy1PQ9"

  -- `bn.toArrayLike(Buffer, "le", 8)` throws (`none`) past 64 bits.
  unfoldable pub find_market_pda : PublicKey → ℕ → Option PublicKey
  find_market_pda creator market_id = do
    buf ← u64_le market_id
    some (find_program_address (codes "market" ∷ creator ∷ buf ∷ []) app_program_id).0

  unfoldable pub find_side_pda : PublicKey → ℕ → PublicKey
  find_side_pda market side_index =
      (find_program_address (codes "side" ∷ market ∷ byte side_index ∷ []) app_program_id).0

  unfoldable pub find_quote_vault_pda : PublicKey → ℕ → PublicKey
  find_quote_vault_pda market side_index =
      (find_program_address (codes "quote_vault" ∷ market ∷ byte side_index ∷ []) app_program_id).0

  unfoldable pub find_token_vault_pda : PublicKey → ℕ → PublicKey
  find_token_vault_pda market side_index =
      (find_program_address (codes "token_vault" ∷ market ∷ byte side_index ∷ []) app_program_id).0

  unfoldable pub find_mint_pda : PublicKey → ℕ → PublicKey
  find_mint_pda market side_index =
      (find_program_address (codes "mint" ∷ market ∷ byte side_index ∷ []) app_program_id).0

  unfoldable pub find_config_pda : PublicKey
  find_config_pda = (find_program_address (codes "config" ∷ []) app_program_id).0

  unfoldable pub find_metadata_pda : PublicKey → PublicKey
  find_metadata_pda mint =
      (find_program_address (codes "metadata" ∷ token_metadata_program_id sol ∷ mint ∷ [])
        (token_metadata_program_id sol)).0

  unfoldable pub find_compare_duel_pda : PublicKey → ℕ → Option PublicKey
  find_compare_duel_pda creator duel_id = do
    buf ← u64_le duel_id
    some (find_program_address (codes "compare_duel" ∷ creator ∷ buf ∷ []) app_program_id).0

  unfoldable pub find_compare_vault_pda : PublicKey → ℕ → PublicKey
  find_compare_vault_pda compare_duel side_index =
      (find_program_address (codes "compare_vault" ∷ compare_duel ∷ byte side_index ∷ [])
        app_program_id).0

  unfoldable pub find_deposit_pda : PublicKey → PublicKey → PublicKey
  find_deposit_pda compare_duel depositor =
      (find_program_address (codes "deposit" ∷ compare_duel ∷ depositor ∷ []) app_program_id).0
