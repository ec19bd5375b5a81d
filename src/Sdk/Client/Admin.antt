-- ===== src/Sdk/Client/Admin.antt =====
-- initialize_config, update_config and initialize_market.
use duel_protocol.Prelude.{ℕ, Bool, Option, none, some, String, [], ◌∷◌}
use duel_protocol.Sdk.Solana.{PublicKey, Solana, ◌>>=◌, token_metadata_program_id}
use duel_protocol.Sdk.Pda.{
  MarketAccounts, derive_market_accounts, find_config_pda, find_metadata_pda,
}
use duel_protocol.Sdk.Client.{Arg, num, text, flag, null, ◌⇒◌, Instruction, Chain}

-- `value ?? null`
abbrev pub or_null {ℓ} : {A : Type ℓ} → (A → Arg) → Option A → Arg
or_null f none = null
or_null f (some a) = f a

-- The options of `buildUpdateConfigInstruction`.
pub record UpdateConfig : Type 0 where
  pub paused : Option Bool
  pub trade_fee_bps : Option ℕ
  pub creator_fee_split_bps : Option ℕ
  pub market_creation_fee : Option ℕ
  pub min_market_duration : Option ℕ
  pub new_protocol_fee_account : Option PublicKey
  pub new_admin : Option PublicKey

-- The parameters of `buildInitializeMarketInstruction`.
pub record MarketParams : Type 0 where
  pub deadline : ℕ
  pub twap_window : ℕ
  pub twap_interval : ℕ
  pub name_a : String
  pub symbol_a : String
  pub uri_a : String
  pub name_b : String
  pub symbol_b : String
  pub uri_b : String
  pub creator_fee_account : PublicKey

module _ (sol : Solana) (chain : Chain) where
  open sol use {token_program_id, system_program_id, sysvar_rent_pubkey}
  open chain use {fetch_config}

  unfoldable pub build_initialize_config : PublicKey → PublicKey → ℕ → ℕ → ℕ → Instruction
  build_initialize_config admin protocol_fee_account trade_fee_bps creator_fee_split_bps fee =
      record {
        method = "initializeConfig";
        args = num trade_fee_bps ∷ num creator_fee_split_bps ∷ num fee ∷ [];
        accounts =
            "admin" ⇒ admin
            ∷ "config" ⇒ (find_config_pda sol).0
            ∷ "protocolFeeAccount" ⇒ protocol_fee_account
            ∷ "systemProgram" ⇒ system_program_id
            ∷ [];
        signers = [];
      }

  unfoldable pub build_update_config : PublicKey → UpdateConfig → Instruction
  build_update_config admin opts = record {
    method = "updateConfig";
    args =
        or_null flag opts.paused
        ∷ or_null num opts.trade_fee_bps
        ∷ or_null num opts.creator_fee_split_bps
        ∷ or_null num opts.market_creation_fee
        ∷ or_null num opts.min_market_duration
        ∷ [];
    accounts =
        "admin" ⇒ admin
        ∷ "config" ⇒ (find_config_pda sol).0
        ∷ ("newProtocolFeeAccount", opts.new_protocol_fee_account)
        ∷ ("newAdmin", opts.new_admin)
        ∷ [];
    signers = [];
  }

  unfoldable pub build_initialize_market :
      PublicKey → ℕ → MarketParams → PublicKey → Option (Instruction × MarketAccounts)
  build_initialize_market creator market_id params quote_mint = do
    accounts' ← derive_market_accounts sol creator market_id
    let config_pda = (find_config_pda sol).0
    config_data ← fetch_config config_pda
    some (
      record {
        method = "initializeMarket";
        args =
            num market_id
            ∷ num params.deadline
            ∷ num params.twap_window
            ∷ num params.twap_interval
            ∷ text params.name_a
            ∷ text params.symbol_a
            ∷ text params.uri_a
            ∷ text params.name_b
            ∷ text params.symbol_b
            ∷ text params.uri_b
            ∷ [];
        accounts =
            "creator" ⇒ creator
            ∷ "market" ⇒ accounts'.market
            ∷ "sideA" ⇒ accounts'.side_a
            ∷ "sideB" ⇒ accounts'.side_b
            ∷ "tokenMintA" ⇒ accounts'.mint_a
            ∷ "tokenMintB" ⇒ accounts'.mint_b
            ∷ "tokenVaultA" ⇒ accounts'.token_vault_a
            ∷ "tokenVaultB" ⇒ accounts'.token_vault_b
            ∷ "quoteMint" ⇒ quote_mint
            ∷ "quoteTokenProgram" ⇒ token_program_id
            ∷ "quoteVaultA" ⇒ accounts'.quote_vault_a
            ∷ "quoteVaultB" ⇒ accounts'.quote_vault_b
            ∷ "protocolFeeAccount" ⇒ config_data.protocol_fee_account
            ∷ "config" ⇒ config_pda
            ∷ "metadataA" ⇒ (find_metadata_pda sol accounts'.mint_a).0
            ∷ "metadataB" ⇒ (find_metadata_pda sol accounts'.mint_b).0
            ∷ "tokenMetadataProgram" ⇒ token_metadata_program_id sol
            ∷ "creatorFeeAccount" ⇒ params.creator_fee_account
            ∷ "systemProgram" ⇒ system_program_id
            ∷ "tokenProgram" ⇒ token_program_id
            ∷ "rent" ⇒ sysvar_rent_pubkey
            ∷ [];
        signers = [];
      },
      accounts',
    )
