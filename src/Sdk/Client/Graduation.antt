-- ===== src/Sdk/Client/Graduation.antt =====
-- resolve_and_graduate as the SDK builds it, and as the cranker of backend/src/cranker.ts does.
use duel_protocol.Prelude.{ℕ, true, Bool, Option, some, List, [], ◌∷◌, ◌++◌}
use duel_protocol.Sdk.Solana.{
  PublicKey, Solana, ◌>>=◌, wsol_mint, meteora_damm_v2_program_id, token_metadata_program_id,
  token_2022_program_id, associated_token_program_id,
}
use duel_protocol.Sdk.Pda.{find_config_pda, find_metadata_pda, derive_damm_v2_accounts}
use duel_protocol.Sdk.Client.{
  num, ◌⇒◌, Instruction, PreInstruction, set_compute_unit_limit, Chain, pick, MarketData, SideData,
}
use duel_protocol.Sdk.Client.Trading.{create_missing}

-- What `buildResolveAndGraduateInstruction` returns.
pub record Graduation : Type 0 where
  pub pre_instructions : List PreInstruction
  pub instruction : Instruction
  pub pool : PublicKey
  pub position : PublicKey
  pub market_token_ata : PublicKey
  pub market_wsol_ata : PublicKey

module _ (sol : Solana) (chain : Chain) where
  open sol use {token_program_id, system_program_id, native_mint, get_associated_token_address}
  open chain use {fetch_market, fetch_side, account_exists}

  unfoldable pub build_resolve_and_graduate :
      PublicKey → ℕ → PublicKey → PublicKey → PublicKey → Option Graduation
  build_resolve_and_graduate market expected_winner resolver position_nft_mint quote_mint = do
    market_data ← fetch_market market
    side_a_data ← fetch_side market_data.side_a
    side_b_data ← fetch_side market_data.side_b
    let winning_token_mint = pick expected_winner side_a_data.token_mint side_b_data.token_mint
    let losing_mint = pick expected_winner side_b_data.token_mint side_a_data.token_mint
    let damm = derive_damm_v2_accounts sol winning_token_mint position_nft_mint (wsol_mint sol)
    token_ata ← get_associated_token_address winning_token_mint market true
    wsol_ata ← get_associated_token_address (wsol_mint sol) market true
    token_exists ← account_exists token_ata
    wsol_exists ← account_exists wsol_ata
    some (record {
      pre_instructions =
          set_compute_unit_limit 800000
          ∷ (create_missing token_exists resolver token_ata market winning_token_mint
              ++ create_missing wsol_exists resolver wsol_ata market (wsol_mint sol));
      instruction = record {
        method = "resolveAndGraduate";
        args = num expected_winner ∷ [];
        accounts =
            "resolver" ⇒ resolver
            ∷ "market" ⇒ market
            ∷ "config" ⇒ (find_config_pda sol).0
            ∷ "sideA" ⇒ market_data.side_a
            ∷ "sideB" ⇒ market_data.side_b
            ∷ "quoteVaultA" ⇒ side_a_data.quote_reserve_vault
            ∷ "quoteVaultB" ⇒ side_b_data.quote_reserve_vault
            ∷ "tokenVaultA" ⇒ side_a_data.token_reserve_vault
            ∷ "tokenVaultB" ⇒ side_b_data.token_reserve_vault
            ∷ "tokenMintA" ⇒ side_a_data.token_mint
            ∷ "tokenMintB" ⇒ side_b_data.token_mint
            ∷ "quoteMint" ⇒ quote_mint
            ∷ "marketTokenAta" ⇒ token_ata
            ∷ "marketWsolAta" ⇒ wsol_ata
            ∷ "pool" ⇒ damm.pool
            ∷ "positionNftMint" ⇒ position_nft_mint
            ∷ "positionNftAccount" ⇒ damm.position_nft_account
            ∷ "position" ⇒ damm.position
            ∷ "poolTokenVaultA" ⇒ damm.token_a_vault
            ∷ "poolTokenVaultB" ⇒ damm.token_b_vault
            ∷ "poolAuthority" ⇒ damm.pool_authority
            ∷ "eventAuthority" ⇒ damm.event_authority
            ∷ "meteoraProgram" ⇒ meteora_damm_v2_program_id sol
            ∷ "losingTokenMetadata" ⇒ (find_metadata_pda sol losing_mint).0
            ∷ "tokenMetadataProgram" ⇒ token_metadata_program_id sol
            ∷ "tokenProgram" ⇒ token_program_id
            ∷ "quoteTokenProgram" ⇒ token_program_id
            ∷ "token2022Program" ⇒ token_2022_program_id sol
            ∷ "associatedTokenProgram" ⇒ associated_token_program_id sol
            ∷ "systemProgram" ⇒ system_program_id
            ∷ [];
        signers = position_nft_mint ∷ [];
      };
      pool = damm.pool;
      position = damm.position;
      market_token_ata = token_ata;
      market_wsol_ata = wsol_ata;
    })

  -- `ensureAta`: the address, and its creation if no account is there.
  unfoldable pub ensure_ata :
      PublicKey → PublicKey → PublicKey → Bool → Option (PublicKey × List PreInstruction)
  ensure_ata payer owner mint allow_owner_off_curve = do
    ata ← get_associated_token_address mint owner allow_owner_off_curve
    info ← account_exists ata
    some (ata, create_missing info payer ata owner mint)

  -- The transactions of the cranker for one resolution, given the mint of wrapped SOL and the
  -- account of the market from the list that it fetched: the creations sent first, and then the
  -- resolution.
  unfoldable pub crank_resolution_with :
      PublicKey
      → PublicKey
      → PublicKey
      → MarketData
      → PublicKey
      → SideData
      → SideData
      → ℕ
      → Option (List PreInstruction × Instruction)
  crank_resolution_with wrapped cranker market account position_nft_mint side_a_data side_b_data
        expected_winner =
      do
        let winning_token_mint = pick expected_winner side_a_data.token_mint side_b_data.token_mint
        let losing_token_mint = pick expected_winner side_b_data.token_mint side_a_data.token_mint
        token_ata ← ensure_ata cranker market winning_token_mint true
        wsol_ata ← ensure_ata cranker market wrapped true
        let damm = derive_damm_v2_accounts sol winning_token_mint position_nft_mint (wsol_mint sol)
        some (
          token_ata.1 ++ wsol_ata.1,
          record {
            method = "resolveAndGraduate";
            args = num expected_winner ∷ [];
            accounts =
                "resolver" ⇒ cranker
                ∷ "market" ⇒ market
                ∷ "config" ⇒ (find_config_pda sol).0
                ∷ "sideA" ⇒ account.side_a
                ∷ "sideB" ⇒ account.side_b
                ∷ "quoteVaultA" ⇒ side_a_data.quote_reserve_vault
                ∷ "quoteVaultB" ⇒ side_b_data.quote_reserve_vault
                ∷ "tokenVaultA" ⇒ side_a_data.token_reserve_vault
                ∷ "tokenVaultB" ⇒ side_b_data.token_reserve_vault
                ∷ "tokenMintA" ⇒ side_a_data.token_mint
                ∷ "tokenMintB" ⇒ side_b_data.token_mint
                ∷ "quoteMint" ⇒ account.quote_mint
                ∷ "marketTokenAta" ⇒ token_ata.0
                ∷ "marketWsolAta" ⇒ wsol_ata.0
                ∷ "pool" ⇒ damm.pool
                ∷ "positionNftMint" ⇒ position_nft_mint
                ∷ "positionNftAccount" ⇒ damm.position_nft_account
                ∷ "position" ⇒ damm.position
                ∷ "poolTokenVaultA" ⇒ damm.token_a_vault
                ∷ "poolTokenVaultB" ⇒ damm.token_b_vault
                ∷ "poolAuthority" ⇒ damm.pool_authority
                ∷ "eventAuthority" ⇒ damm.event_authority
                ∷ "meteoraProgram" ⇒ meteora_damm_v2_program_id sol
                ∷ "losingTokenMetadata" ⇒ (find_metadata_pda sol losing_token_mint).0
                ∷ "tokenMetadataProgram" ⇒ token_metadata_program_id sol
                ∷ "tokenProgram" ⇒ token_program_id
                ∷ "quoteTokenProgram" ⇒ token_program_id
                ∷ "token2022Program" ⇒ token_2022_program_id sol
                ∷ "associatedTokenProgram" ⇒ associated_token_program_id sol
                ∷ "systemProgram" ⇒ system_program_id
                ∷ [];
            signers = cranker ∷ position_nft_mint ∷ [];
          },
        )

  unfoldable pub crank_resolution :
      PublicKey
      → PublicKey
      → MarketData
      → PublicKey
      → SideData
      → SideData
      → ℕ
      → Option (List PreInstruction × Instruction)
  crank_resolution = crank_resolution_with native_mint
