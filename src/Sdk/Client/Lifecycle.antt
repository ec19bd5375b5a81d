-- ===== src/Sdk/Client/Lifecycle.antt =====
-- record_twap_sample, claim_pool_fees, close_quote_vault, close_market and emergency_resolve.
use duel_protocol.Prelude.{ℕ, Option, some, [], ◌∷◌}
use duel_protocol.Sdk.Solana.{PublicKey, Solana, ◌>>=◌, wsol_mint, meteora_damm_v2_program_id}
use duel_protocol.Sdk.Pda.{find_config_pda, derive_damm_v2_accounts}
use duel_protocol.Sdk.Client.{num, ◌⇒◌, Instruction, Chain, pick}

module _ (sol : Solana) (chain : Chain) where
  open sol use {token_program_id, system_program_id}
  open chain use {fetch_market, fetch_side}

  unfoldable pub build_record_twap_sample : PublicKey → PublicKey → Option Instruction
  build_record_twap_sample market cranker = do
    market_data ← fetch_market market
    some (record {
      method = "recordTwapSample";
      args = [];
      accounts =
          "cranker" ⇒ cranker
          ∷ "market" ⇒ market
          ∷ "sideA" ⇒ market_data.side_a
          ∷ "sideB" ⇒ market_data.side_b
          ∷ [];
      signers = [];
    })

  unfoldable pub build_claim_pool_fees :
      PublicKey → PublicKey → PublicKey → PublicKey → PublicKey → PublicKey → Instruction
  build_claim_pool_fees market authority position_nft_mint winning_token_mint receiver_a
        receiver_b =
      let damm = derive_damm_v2_accounts sol winning_token_mint position_nft_mint (wsol_mint sol) in
      record {
        method = "claimPoolFees";
        args = [];
        accounts =
            "authority" ⇒ authority
            ∷ "market" ⇒ market
            ∷ "config" ⇒ (find_config_pda sol).0
            ∷ "tokenMint" ⇒ winning_token_mint
            ∷ "wsolMint" ⇒ wsol_mint sol
            ∷ "poolAuthority" ⇒ damm.pool_authority
            ∷ "pool" ⇒ damm.pool
            ∷ "position" ⇒ damm.position
            ∷ "feeReceiverTokenA" ⇒ receiver_a
            ∷ "feeReceiverTokenB" ⇒ receiver_b
            ∷ "tokenAVault" ⇒ damm.token_a_vault
            ∷ "tokenBVault" ⇒ damm.token_b_vault
            ∷ "positionNftAccount" ⇒ damm.position_nft_account
            ∷ "tokenAProgram" ⇒ token_program_id
            ∷ "tokenBProgram" ⇒ token_program_id
            ∷ "eventAuthority" ⇒ damm.event_authority
            ∷ "meteoraProgram" ⇒ meteora_damm_v2_program_id sol
            ∷ "tokenProgram" ⇒ token_program_id
            ∷ [];
        signers = [];
      }

  unfoldable pub build_close_quote_vault : PublicKey → ℕ → PublicKey → Option Instruction
  build_close_quote_vault market side rent_receiver = do
    market_data ← fetch_market market
    let side_key = pick side market_data.side_a market_data.side_b
    side_data ← fetch_side side_key
    some (record {
      method = "closeQuoteVault";
      args = num side ∷ [];
      accounts =
          "closer" ⇒ rent_receiver
          ∷ "market" ⇒ market
          ∷ "sideAccount" ⇒ side_key
          ∷ "quoteVault" ⇒ side_data.quote_reserve_vault
          ∷ "tokenVault" ⇒ side_data.token_reserve_vault
          ∷ "rentReceiver" ⇒ rent_receiver
          ∷ "tokenProgram" ⇒ token_program_id
          ∷ "quoteTokenProgram" ⇒ token_program_id
          ∷ [];
      signers = [];
    })

  unfoldable pub build_close_market : PublicKey → ℕ → PublicKey → Option Instruction
  build_close_market market side authority = do
    market_data ← fetch_market market
    some (record {
      method = "closeMarket";
      args = num side ∷ [];
      accounts =
          "authority" ⇒ authority
          ∷ "market" ⇒ market
          ∷ "sideA" ⇒ market_data.side_a
          ∷ "sideB" ⇒ market_data.side_b
          ∷ "config" ⇒ (find_config_pda sol).0
          ∷ "systemProgram" ⇒ system_program_id
          ∷ [];
      signers = [];
    })

  unfoldable pub build_emergency_resolve : PublicKey → PublicKey → Option Instruction
  build_emergency_resolve market resolver = do
    market_data ← fetch_market market
    some (record {
      method = "emergencyResolve";
      args = [];
      accounts =
          "resolver" ⇒ resolver
          ∷ "market" ⇒ market
          ∷ "config" ⇒ (find_config_pda sol).0
          ∷ "sideA" ⇒ market_data.side_a
          ∷ "sideB" ⇒ market_data.side_b
          ∷ [];
      signers = [];
    })
