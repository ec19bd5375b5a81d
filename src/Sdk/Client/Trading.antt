-- ===== src/Sdk/Client/Trading.antt =====
-- buy_tokens, sell_tokens and sell_post_resolution.
use duel_protocol.Prelude.{ℕ, false, Bool, Option, some, List, [], ◌∷◌, if◌then◌else◌}
use duel_protocol.Sdk.Solana.{PublicKey, Solana, ◌>>=◌}
use duel_protocol.Sdk.Pda.{find_config_pda}
use duel_protocol.Sdk.Client.{
  num, ◌⇒◌, Instruction, PreInstruction, create_associated_token_account, Chain, pick,
}

-- The creation of a token account that does not exist.
abbrev pub create_missing :
    Bool → PublicKey → PublicKey → PublicKey → PublicKey → List PreInstruction
create_missing exists payer ata owner mint =
    if exists then [] else create_associated_token_account payer ata owner mint ∷ []

module _ (sol : Solana) (chain : Chain) where
  open sol use {token_program_id, get_associated_token_address}
  open chain use {fetch_market, fetch_side, fetch_config, account_exists}

  unfoldable pub build_buy_tokens :
      PublicKey → ℕ → ℕ → ℕ → PublicKey → PublicKey → Option (List PreInstruction × Instruction)
  build_buy_tokens market side quote_amount min_tokens_out buyer quote_mint = do
    market_data ← fetch_market market
    let side_key = pick side market_data.side_a market_data.side_b
    side_data ← fetch_side side_key
    let config_pda = (find_config_pda sol).0
    config_data ← fetch_config config_pda
    buyer_token_account ← get_associated_token_address side_data.token_mint buyer false
    buyer_quote_account ← get_associated_token_address quote_mint buyer false
    exists ← account_exists buyer_token_account
    some (
      create_missing exists buyer buyer_token_account buyer side_data.token_mint,
      record {
        method = "buyTokens";
        args = num side ∷ num quote_amount ∷ num min_tokens_out ∷ [];
        accounts =
            "buyer" ⇒ buyer
            ∷ "market" ⇒ market
            ∷ "sideAccount" ⇒ side_key
            ∷ "tokenMint" ⇒ side_data.token_mint
            ∷ "tokenVault" ⇒ side_data.token_reserve_vault
            ∷ "buyerTokenAccount" ⇒ buyer_token_account
            ∷ "quoteMint" ⇒ quote_mint
            ∷ "quoteVault" ⇒ side_data.quote_reserve_vault
            ∷ "buyerQuoteAccount" ⇒ buyer_quote_account
            ∷ "protocolFeeAccount" ⇒ config_data.protocol_fee_account
            ∷ "creatorFeeAccount" ⇒ market_data.creator_fee_account
            ∷ "config" ⇒ config_pda
            ∷ "tokenProgram" ⇒ token_program_id
            ∷ "quoteTokenProgram" ⇒ token_program_id
            ∷ [];
        signers = [];
      },
    )

  unfoldable pub build_sell_tokens :
      PublicKey → ℕ → ℕ → ℕ → PublicKey → PublicKey → Option Instruction
  build_sell_tokens market side token_amount min_quote_out seller quote_mint = do
    market_data ← fetch_market market
    let side_key = pick side market_data.side_a market_data.side_b
    side_data ← fetch_side side_key
    let config_pda = (find_config_pda sol).0
    config_data ← fetch_config config_pda
    seller_token_account ← get_associated_token_address side_data.token_mint seller false
    seller_quote_account ← get_associated_token_address quote_mint seller false
    some (record {
      method = "sellTokens";
      args = num side ∷ num token_amount ∷ num min_quote_out ∷ [];
      accounts =
          "seller" ⇒ seller
          ∷ "market" ⇒ market
          ∷ "sideAccount" ⇒ side_key
          ∷ "tokenMint" ⇒ side_data.token_mint
          ∷ "tokenVault" ⇒ side_data.token_reserve_vault
          ∷ "sellerTokenAccount" ⇒ seller_token_account
          ∷ "quoteMint" ⇒ quote_mint
          ∷ "quoteVault" ⇒ side_data.quote_reserve_vault
          ∷ "sellerQuoteAccount" ⇒ seller_quote_account
          ∷ "protocolFeeAccount" ⇒ config_data.protocol_fee_account
          ∷ "creatorFeeAccount" ⇒ market_data.creator_fee_account
          ∷ "config" ⇒ config_pda
          ∷ "tokenProgram" ⇒ token_program_id
          ∷ "quoteTokenProgram" ⇒ token_program_id
          ∷ [];
      signers = [];
    })

  unfoldable pub build_sell_post_resolution :
      PublicKey → ℕ → ℕ → ℕ → PublicKey → PublicKey → Option Instruction
  build_sell_post_resolution market side token_amount min_quote_out seller quote_mint = do
    market_data ← fetch_market market
    let side_key = pick side market_data.side_a market_data.side_b
    side_data ← fetch_side side_key
    seller_token_account ← get_associated_token_address side_data.token_mint seller false
    seller_quote_account ← get_associated_token_address quote_mint seller false
    some (record {
      method = "sellPostResolution";
      args = num side ∷ num token_amount ∷ num min_quote_out ∷ [];
      accounts =
          "seller" ⇒ seller
          ∷ "market" ⇒ market
          ∷ "sideAccount" ⇒ side_key
          ∷ "tokenMint" ⇒ side_data.token_mint
          ∷ "tokenVault" ⇒ side_data.token_reserve_vault
          ∷ "sellerTokenAccount" ⇒ seller_token_account
          ∷ "quoteMint" ⇒ quote_mint
          ∷ "quoteVault" ⇒ side_data.quote_reserve_vault
          ∷ "sellerQuoteAccount" ⇒ seller_quote_account
          ∷ "config" ⇒ (find_config_pda sol).0
          ∷ "tokenProgram" ⇒ token_program_id
          ∷ "quoteTokenProgram" ⇒ token_program_id
          ∷ [];
      signers = [];
    })
