-- ===== src/Sdk/Client/Compare.antt =====
-- The builders of compare duels.
use duel_protocol.Prelude.{ℕ, false, Option, none, some, [], ◌∷◌}
use duel_protocol.Sdk.Solana.{PublicKey, Solana, ◌>>=◌}
use duel_protocol.Sdk.Pda.{
  find_config_pda, find_compare_duel_pda, find_compare_vault_pda, find_deposit_pda,
}
use duel_protocol.Sdk.Client.{num, ◌⇒◌, Instruction, Chain, pick}

-- The parameters of `buildCreateCompareDuelInstruction`.
pub record CompareParams : Type 0 where
  pub deadline : ℕ
  pub twap_window : ℕ
  pub twap_interval : ℕ
  pub min_deposit : ℕ
  pub oracle_a : PublicKey
  pub oracle_b : PublicKey
  pub token_a_mint : PublicKey
  pub token_b_mint : PublicKey
  pub creator_fee_account : PublicKey

-- The vault of a withdrawal: the winner's, or the depositor's own after a draw.
unfoldable pub withdraw_vault : Option ℕ → ℕ → PublicKey → PublicKey → PublicKey
withdraw_vault (some winner) side vault_a vault_b = pick winner vault_a vault_b
withdraw_vault none side vault_a vault_b = pick side vault_a vault_b

module _ (sol : Solana) (chain : Chain) where
  open sol use {
    token_program_id, system_program_id, sysvar_rent_pubkey, get_associated_token_address,
  }
  open chain use {fetch_config, fetch_compare_duel, fetch_deposit}

  -- The instruction, with the addresses of the duel and its two vaults.
  unfoldable pub build_create_compare_duel :
      PublicKey
      → ℕ
      → CompareParams
      → PublicKey
      → Option (Instruction × PublicKey × PublicKey × PublicKey)
  build_create_compare_duel creator duel_id params quote_mint = do
    found ← find_compare_duel_pda sol creator duel_id
    let compare_duel = found.0
    let pool_vault_a = (find_compare_vault_pda sol compare_duel 0).0
    let pool_vault_b = (find_compare_vault_pda sol compare_duel 1).0
    let config_pda = (find_config_pda sol).0
    config_data ← fetch_config config_pda
    some (
      record {
        method = "createCompareDuel";
        args =
            num duel_id
            ∷ num params.deadline
            ∷ num params.twap_window
            ∷ num params.twap_interval
            ∷ num params.min_deposit
            ∷ [];
        accounts =
            "creator" ⇒ creator
            ∷ "compareDuel" ⇒ compare_duel
            ∷ "quoteMint" ⇒ quote_mint
            ∷ "poolVaultA" ⇒ pool_vault_a
            ∷ "poolVaultB" ⇒ pool_vault_b
            ∷ "oracleA" ⇒ params.oracle_a
            ∷ "oracleB" ⇒ params.oracle_b
            ∷ "config" ⇒ config_pda
            ∷ "protocolFeeAccount" ⇒ config_data.protocol_fee_account
            ∷ "creatorFeeAccount" ⇒ params.creator_fee_account
            ∷ "tokenAMint" ⇒ params.token_a_mint
            ∷ "tokenBMint" ⇒ params.token_b_mint
            ∷ "systemProgram" ⇒ system_program_id
            ∷ "tokenProgram" ⇒ token_program_id
            ∷ "rent" ⇒ sysvar_rent_pubkey
            ∷ [];
        signers = [];
      },
      compare_duel,
      pool_vault_a,
      pool_vault_b,
    )

  -- The instruction, with the address of the deposit record.
  unfoldable pub build_deposit :
      PublicKey → ℕ → ℕ → PublicKey → PublicKey → Option (Instruction × PublicKey)
  build_deposit compare_duel side amount depositor quote_mint = do
    duel_data ← fetch_compare_duel compare_duel
    let deposit_record = (find_deposit_pda sol compare_duel depositor).0
    let pool_vault = pick side duel_data.pool_vault_a duel_data.pool_vault_b
    depositor_wsol_account ← get_associated_token_address quote_mint depositor false
    some (
      record {
        method = "deposit";
        args = num side ∷ num amount ∷ [];
        accounts =
            "depositor" ⇒ depositor
            ∷ "compareDuel" ⇒ compare_duel
            ∷ "depositRecord" ⇒ deposit_record
            ∷ "poolVault" ⇒ pool_vault
            ∷ "depositorWsolAccount" ⇒ depositor_wsol_account
            ∷ "quoteMint" ⇒ quote_mint
            ∷ "config" ⇒ (find_config_pda sol).0
            ∷ "systemProgram" ⇒ system_program_id
            ∷ "tokenProgram" ⇒ token_program_id
            ∷ [];
        signers = [];
      },
      deposit_record,
    )

  unfoldable pub build_record_compare_twap : PublicKey → PublicKey → Option Instruction
  build_record_compare_twap compare_duel cranker = do
    duel_data ← fetch_compare_duel compare_duel
    some (record {
      method = "recordCompareTwap";
      args = [];
      accounts =
          "cranker" ⇒ cranker
          ∷ "compareDuel" ⇒ compare_duel
          ∷ "oracleA" ⇒ duel_data.oracle_a
          ∷ "oracleB" ⇒ duel_data.oracle_b
          ∷ [];
      signers = [];
    })

  unfoldable pub build_resolve_compare : PublicKey → PublicKey → PublicKey → Option Instruction
  build_resolve_compare compare_duel resolver quote_mint = do
    duel_data ← fetch_compare_duel compare_duel
    some (record {
      method = "resolveCompare";
      args = [];
      accounts =
          "resolver" ⇒ resolver
          ∷ "compareDuel" ⇒ compare_duel
          ∷ "poolVaultA" ⇒ duel_data.pool_vault_a
          ∷ "poolVaultB" ⇒ duel_data.pool_vault_b
          ∷ "protocolFeeAccount" ⇒ duel_data.protocol_fee_account
          ∷ "creatorFeeAccount" ⇒ duel_data.creator_fee_account
          ∷ "quoteMint" ⇒ quote_mint
          ∷ "config" ⇒ (find_config_pda sol).0
          ∷ "tokenProgram" ⇒ token_program_id
          ∷ [];
      signers = [];
    })

  unfoldable pub build_withdraw : PublicKey → PublicKey → PublicKey → Option Instruction
  unfolding withdraw_vault
  build_withdraw compare_duel depositor quote_mint = do
    duel_data ← fetch_compare_duel compare_duel
    let deposit_pda = (find_deposit_pda sol compare_duel depositor).0
    deposit_data ← fetch_deposit deposit_pda
    let pool_vault =
        withdraw_vault duel_data.winner deposit_data.side duel_data.pool_vault_a
          duel_data.pool_vault_b
    depositor_wsol_account ← get_associated_token_address quote_mint depositor false
    some (record {
      method = "withdraw";
      args = [];
      accounts =
          "depositor" ⇒ depositor
          ∷ "compareDuel" ⇒ compare_duel
          ∷ "depositRecord" ⇒ deposit_pda
          ∷ "poolVault" ⇒ pool_vault
          ∷ "depositorWsolAccount" ⇒ depositor_wsol_account
          ∷ "quoteMint" ⇒ quote_mint
          ∷ "tokenProgram" ⇒ token_program_id
          ∷ [];
      signers = [];
    })

  unfoldable pub build_emergency_resolve_compare : PublicKey → PublicKey → Instruction
  build_emergency_resolve_compare compare_duel resolver = record {
    method = "emergencyResolveCompare";
    args = [];
    accounts =
        "resolver" ⇒ resolver
        ∷ "compareDuel" ⇒ compare_duel
        ∷ "config" ⇒ (find_config_pda sol).0
        ∷ [];
    signers = [];
  }

  unfoldable pub build_close_compare_duel : PublicKey → PublicKey → Option Instruction
  build_close_compare_duel compare_duel authority = do
    duel_data ← fetch_compare_duel compare_duel
    some (record {
      method = "closeCompareDuel";
      args = [];
      accounts =
          "authority" ⇒ authority
          ∷ "compareDuel" ⇒ compare_duel
          ∷ "poolVaultA" ⇒ duel_data.pool_vault_a
          ∷ "poolVaultB" ⇒ duel_data.pool_vault_b
          ∷ "config" ⇒ (find_config_pda sol).0
          ∷ "tokenProgram" ⇒ token_program_id
          ∷ "systemProgram" ⇒ system_program_id
          ∷ [];
      signers = [];
    })

  unfoldable pub build_close_deposit : PublicKey → PublicKey → Instruction
  build_close_deposit compare_duel depositor = record {
    method = "closeDeposit";
    args = [];
    accounts =
        "depositor" ⇒ depositor
        ∷ "depositRecord" ⇒ (find_deposit_pda sol compare_duel depositor).0
        ∷ "compareDuel" ⇒ compare_duel
        ∷ "systemProgram" ⇒ system_program_id
        ∷ [];
    signers = [];
  }
