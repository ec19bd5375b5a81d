-- ===== src/Scripts/TwapCranker/Resolution.antt =====
-- The resolution that scripts/cranker.ts sends, with all its accounts, and the creation of the
-- market's token accounts before it.
use duel_protocol.Prelude.{ℕ, ◌≡◌, refl, true, Option, some, List, [], ◌∷◌, ◌++◌}
use duel_protocol.Sdk.Solana.{
  PublicKey, Solana, ◌>>=◌, wsol_mint, meteora_damm_v2_program_id, token_metadata_program_id,
  token_2022_program_id, associated_token_program_id,
}
use duel_protocol.Sdk.Pda.{find_config_pda, find_metadata_pda, derive_damm_v2_accounts}
use duel_protocol.Sdk.Client.{
  num, ◌⇒◌, Instruction, PreInstruction, Chain, pick, MarketData, SideData,
}
use duel_protocol.Sdk.Client.Graduation.{ensure_ata, crank_resolution, crank_resolution_with}

module _ (sol : Solana) (chain : Chain) where
  open sol use {token_program_id, system_program_id, native_mint}

  -- The creations sent, and the resolution; `account` is that of the market in the list fetched.
  unfoldable pub resolution :
      PublicKey
      → PublicKey
      → MarketData
      → PublicKey
      → SideData
      → SideData
      → ℕ
      → Option (List PreInstruction × Instruction)
  resolution cranker market account position_nft_mint side_a_data side_b_data expected_winner = do
    let winning = pick expected_winner side_a_data side_b_data
    let losing = pick expected_winner side_b_data side_a_data
    market_token_ata ← ensure_ata sol chain cranker market winning.token_mint true
    market_wsol_ata ← ensure_ata sol chain cranker market native_mint true
    let damm = derive_damm_v2_accounts sol winning.token_mint position_nft_mint (wsol_mint sol)
    some (
      market_token_ata.1 ++ market_wsol_ata.1,
      record {
        method = "resolveAndGraduate";
        args = num expected_winner ∷ [];
        accounts =
            "resolver" ⇒ cranker
            ∷ "market" ⇒ market
            ∷ "config" ⇒ (find_config_pda sol).0
            ∷ "sideA" ⇒ account.side_a
            ∷ "sideB" ⇒ account.side_b
            ∷ "quoteVaultA" ⇒ side_a_data.quote_reserve_vault
            ∷ "quoteVaultB" ⇒ side_b_data.quote_reserve_vault
            ∷ "tokenVaultA" ⇒ side_a_data.token_reserve_vault
            ∷ "tokenVaultB" ⇒ side_b_data.token_reserve_vault
            ∷ "tokenMintA" ⇒ side_a_data.token_mint
            ∷ "tokenMintB" ⇒ side_b_data.token_mint
            ∷ "quoteMint" ⇒ account.quote_mint
            ∷ "marketTokenAta" ⇒ market_token_ata.0
            ∷ "marketWsolAta" ⇒ market_wsol_ata.0
            ∷ "pool" ⇒ damm.pool
            ∷ "positionNftMint" ⇒ position_nft_mint
            ∷ "positionNftAccount" ⇒ damm.position_nft_account
            ∷ "position" ⇒ damm.position
            ∷ "poolTokenVaultA" ⇒ damm.token_a_vault
            ∷ "poolTokenVaultB" ⇒ damm.token_b_vault
            ∷ "poolAuthority" ⇒ damm.pool_authority
            ∷ "eventAuthority" ⇒ damm.event_authority
            ∷ "meteoraProgram" ⇒ meteora_damm_v2_program_id sol
            ∷ "losingTokenMetadata" ⇒ (find_metadata_pda sol losing.token_mint).0
            ∷ "tokenMetadataProgram" ⇒ token_metadata_program_id sol
            ∷ "tokenProgram" ⇒ token_program_id
            ∷ "quoteTokenProgram" ⇒ token_program_id
            ∷ "token2022Program" ⇒ token_2022_program_id sol
            ∷ "associatedTokenProgram" ⇒ associated_token_program_id sol
            ∷ "systemProgram" ⇒ system_program_id
            ∷ [];
        signers = cranker ∷ position_nft_mint ∷ [];
      },
    )

  -- It is what the backend's cranker sends, for a winner on either side.
  resolution-crank_resolution :
      (cranker market nft : PublicKey) (account : MarketData) (a b : SideData)
      → (resolution cranker market account nft a b 0
          ≡ crank_resolution sol chain cranker market account nft a b 0)
        × (resolution cranker market account nft a b 1
            ≡ crank_resolution sol chain cranker market account nft a b 1)
  unfolding resolution crank_resolution crank_resolution_with
  resolution-crank_resolution cranker market nft account a b = (refl, refl)
