-- ===== src/App/Create/Market.antt =====
-- What the two pages send: `handleCreate` of each, up to the wallet's approval. `now_ms` is
-- `Date.now()` when it starts, `now` the time in seconds when the schedule is made. Trimming and
-- upper case are the text library's.
use package.text.Mathlib.Text.{◌==◌ as str_eq}
use duel_protocol.Prelude.{
  ℕ, String, Bool, true, false, Option, none, some, List, [], ◌∷◌, ◌&&◌, not, if◌then◌else◌,
}
use duel_protocol.Sdk.Solana.{PublicKey, Solana, ◌>>=◌, token_metadata_program_id}
use duel_protocol.Sdk.Client.{num, text, ◌⇒◌, Instruction, Chain}
use duel_protocol.App.Pda.{
  find_config_pda, find_metadata_pda, find_market_pda, find_side_pda, find_mint_pda,
  find_token_vault_pda, find_quote_vault_pda, find_compare_duel_pda, find_compare_vault_pda,
}
use duel_protocol.App.Create.{deadline_of, twap_window_of, twap_interval_of, send_creation}
use duel_protocol.App.Transaction.{Step}

-- `String.prototype.trim` and `toUpperCase`.
pub record TextLibrary : Type 0 where
  pub trim : String → String
  pub to_upper_case : String → String

pub record MarketForm : Type 0 where
  pub name_a : String
  pub symbol_a : String
  pub name_b : String
  pub symbol_b : String
  pub duration_hours : ℕ

abbrev is_empty : String → Bool
is_empty t = str_eq t ""

-- `canCreate` of the first page, apart from the wallet.
unfoldable pub can_create : TextLibrary → MarketForm → Bool → Bool
can_create texts form submitting =
    not (is_empty (texts.trim form.name_a))
    && not (is_empty (texts.trim form.symbol_a))
    && not (is_empty (texts.trim form.name_b))
    && not (is_empty (texts.trim form.symbol_b))
    && not submitting

-- The form of a compare duel: `none` where `new PublicKey` throws, or `new BN` at an amount that is
-- not a number.
pub record CompareForm : Type 0 where
  pub token_a_mint : Option PublicKey
  pub token_b_mint : Option PublicKey
  pub oracle_a : Option PublicKey
  pub oracle_b : Option PublicKey
  pub same_mint : Bool
  pub duration_hours : ℕ
  pub min_deposit_lamports : Option ℕ

-- `isValidMint`
abbrev is_valid_mint : Option PublicKey → Bool
is_valid_mint none = false
is_valid_mint (some k) = true

-- `canCreate` of the second page, apart from the wallet; `same_mint` is whether the two texts of
-- the mints are equal.
unfoldable pub can_create_duel : CompareForm → Bool → Bool
can_create_duel form submitting =
    is_valid_mint form.token_a_mint
    && is_valid_mint form.token_b_mint
    && is_valid_mint form.oracle_a
    && is_valid_mint form.oracle_b
    && not form.same_mint
    && not submitting

module _ (sol : Solana) (chain : Chain) where
  open sol use {
    native_mint, token_program_id, system_program_id, public_key, get_associated_token_address,
  }

  -- The fee account, found after the address of the market or duel and the configuration.
  unfoldable pub fee_account_after : Option PublicKey → PublicKey → Option PublicKey
  fee_account_after created creator = do
    address ← created
    config_data ← chain.fetch_config (find_config_pda sol)
    get_associated_token_address native_mint creator false

  unfoldable pub market_creation : TextLibrary → MarketForm → PublicKey → ℕ → ℕ → Option Instruction
  market_creation texts form creator now_ms now = do
    market ← find_market_pda sol creator now_ms
    config_data ← chain.fetch_config (find_config_pda sol)
    creator_fee_account ← get_associated_token_address native_mint creator false
    some (record {
      method = "initializeMarket";
      args =
          num now_ms
          ∷ num (deadline_of now form.duration_hours)
          ∷ num (twap_window_of form.duration_hours)
          ∷ num (twap_interval_of form.duration_hours)
          ∷ text (texts.trim form.name_a)
          ∷ text (texts.to_upper_case (texts.trim form.symbol_a))
          ∷ text ""
          ∷ text (texts.trim form.name_b)
          ∷ text (texts.to_upper_case (texts.trim form.symbol_b))
          ∷ text ""
          ∷ [];
      accounts =
          "creator" ⇒ creator
          ∷ "market" ⇒ market
          ∷ "sideA" ⇒ find_side_pda sol market 0
          ∷ "sideB" ⇒ find_side_pda sol market 1
          ∷ "tokenMintA" ⇒ find_mint_pda sol market 0
          ∷ "tokenMintB" ⇒ find_mint_pda sol market 1
          ∷ "tokenVaultA" ⇒ find_token_vault_pda sol market 0
          ∷ "tokenVaultB" ⇒ find_token_vault_pda sol market 1
          ∷ "quoteMint" ⇒ native_mint
          ∷ "quoteTokenProgram" ⇒ token_program_id
          ∷ "quoteVaultA" ⇒ find_quote_vault_pda sol market 0
          ∷ "quoteVaultB" ⇒ find_quote_vault_pda sol market 1
          ∷ "protocolFeeAccount" ⇒ config_data.protocol_fee_account
          ∷ "creatorFeeAccount" ⇒ creator_fee_account
          ∷ "config" ⇒ find_config_pda sol
          ∷ "metadataA" ⇒ find_metadata_pda sol (find_mint_pda sol market 0)
          ∷ "metadataB" ⇒ find_metadata_pda sol (find_mint_pda sol market 1)
          ∷ "tokenMetadataProgram" ⇒ token_metadata_program_id sol
          ∷ "systemProgram" ⇒ system_program_id
          ∷ "tokenProgram" ⇒ token_program_id
          ∷ "rent" ⇒ public_key "SysvarRent111111111111111111111111111111111"
          ∷ [];
      signers = [];
    })

  unfoldable pub handle_create :
      TextLibrary
      → MarketForm
      → Bool
      → Option PublicKey
      → (PublicKey → Bool)
      → Bool
      → ℕ
      → ℕ
      → List (List Step)
  unfolding can_create send_creation
  handle_create texts form submitting none has_account confirmed now_ms now = []
  handle_create texts form submitting (some wallet) has_account confirmed now_ms now =
      if can_create texts form submitting
      then send_creation has_account confirmed wallet native_mint
          (fee_account_after (find_market_pda sol wallet now_ms) wallet)
          (market_creation texts form wallet now_ms now)
      else []

  -- Likewise for a compare duel.
  unfoldable pub duel_creation : CompareForm → PublicKey → ℕ → ℕ → Option Instruction
  duel_creation form creator now_ms now = do
    compare_duel ← find_compare_duel_pda sol creator now_ms
    config_data ← chain.fetch_config (find_config_pda sol)
    creator_fee_account ← get_associated_token_address native_mint creator false
    oracle_a ← form.oracle_a
    oracle_b ← form.oracle_b
    token_a_mint ← form.token_a_mint
    token_b_mint ← form.token_b_mint
    min_deposit ← form.min_deposit_lamports
    some (record {
      method = "createCompareDuel";
      args =
          num now_ms
          ∷ num (deadline_of now form.duration_hours)
          ∷ num (twap_window_of form.duration_hours)
          ∷ num (twap_interval_of form.duration_hours)
          ∷ num min_deposit
          ∷ [];
      accounts =
          "creator" ⇒ creator
          ∷ "compareDuel" ⇒ compare_duel
          ∷ "quoteMint" ⇒ native_mint
          ∷ "poolVaultA" ⇒ find_compare_vault_pda sol compare_duel 0
          ∷ "poolVaultB" ⇒ find_compare_vault_pda sol compare_duel 1
          ∷ "oracleA" ⇒ oracle_a
          ∷ "oracleB" ⇒ oracle_b
          ∷ "config" ⇒ find_config_pda sol
          ∷ "protocolFeeAccount" ⇒ config_data.protocol_fee_account
          ∷ "creatorFeeAccount" ⇒ creator_fee_account
          ∷ "tokenAMint" ⇒ token_a_mint
          ∷ "tokenBMint" ⇒ token_b_mint
          ∷ "systemProgram" ⇒ system_program_id
          ∷ "tokenProgram" ⇒ token_program_id
          ∷ "rent" ⇒ public_key "SysvarRent111111111111111111111111111111111"
          ∷ [];
      signers = [];
    })

  unfoldable pub handle_create_duel :
      CompareForm → Bool → Option PublicKey → (PublicKey → Bool) → Bool → ℕ → ℕ → List (List Step)
  unfolding can_create_duel send_creation
  handle_create_duel form submitting none has_account confirmed now_ms now = []
  handle_create_duel form submitting (some wallet) has_account confirmed now_ms now =
      if can_create_duel form submitting
      then send_creation has_account confirmed wallet native_mint
          (fee_account_after (find_compare_duel_pda sol wallet now_ms) wallet)
          (duel_creation form wallet now_ms now)
      else []
