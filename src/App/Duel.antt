-- ===== src/App/Duel.antt =====
-- The page of a market, app/app/duels/[id]/page.tsx: the buy and sell handlers, what it fetches,
-- and the progress of the TWAP window. The parsed amounts are inputs: `none` where `parseFloat`
-- gives NaN or the number is not positive.
pub mod Fetch
pub mod Progress
pub mod Gates
pub mod Offers
pub mod Laws
mod Tests
use duel_protocol.Prelude.{
  ℕ, ◌+◌, ◌-◌, ◌/◌, min, Option, none, some, Bool, true, false, List, [], ◌∷◌, ◌++◌, ltb, ◌==◌,
  if◌then◌else◌,
}
use duel_protocol.Sdk.Solana.{PublicKey, Solana, ◌>>=◌}
use duel_protocol.Sdk.Client.{num, ◌⇒◌, Instruction, Chain, MarketData, SideData, ConfigData, pick}
use duel_protocol.App.{MarketPhase, active, twap, resolved, Schedule, get_market_phase}
use duel_protocol.App.Pda.{find_config_pda}
use duel_protocol.App.Transaction.{
  Step, call, Attempt, ignored, failed, submitted, add_missing, wrap_sol,
}

-- The market and its sides, once fetched.
pub record Page : Type 0 where
  pub market_key : PublicKey
  pub market : MarketData
  pub schedule : Schedule
  pub side_a : SideData
  pub side_b : SideData
  pub selected_side : ℕ

abbrev pub chosen : Page → SideData
chosen page = pick page.selected_side page.side_a page.side_b

-- `none` is a call that throws.
unfoldable pub attempt : Option (List Step) → Bool → Attempt
attempt none confirmed = failed
attempt (some tx) confirmed = submitted tx confirmed

module _ (sol : Solana) (chain : Chain) (has_account : PublicKey → Bool) where
  open sol use {native_mint, token_program_id, get_associated_token_address}

  -- The instructions, with the accounts in common.
  unfoldable pub buy_instruction :
      Page → PublicKey → ConfigData → PublicKey → PublicKey → ℕ → Instruction
  buy_instruction page buyer config wsol_ata buyer_ata lamports = record {
    method = "buyTokens";
    args = num page.selected_side ∷ num lamports ∷ num 1 ∷ [];
    accounts =
        "buyer" ⇒ buyer
        ∷ "market" ⇒ page.market_key
        ∷ "sideAccount" ⇒ pick page.selected_side page.market.side_a page.market.side_b
        ∷ "tokenMint" ⇒ (chosen page).token_mint
        ∷ "tokenVault" ⇒ (chosen page).token_reserve_vault
        ∷ "buyerTokenAccount" ⇒ buyer_ata
        ∷ "quoteMint" ⇒ native_mint
        ∷ "quoteVault" ⇒ (chosen page).quote_reserve_vault
        ∷ "buyerQuoteAccount" ⇒ wsol_ata
        ∷ "protocolFeeAccount" ⇒ config.protocol_fee_account
        ∷ "creatorFeeAccount" ⇒ page.market.creator_fee_account
        ∷ "config" ⇒ find_config_pda sol
        ∷ "tokenProgram" ⇒ token_program_id
        ∷ "quoteTokenProgram" ⇒ token_program_id
        ∷ [];
    signers = [];
  }

  -- The body of the `try`, up to the wallet's approval.
  unfoldable pub buy_transaction : Page → PublicKey → ℕ → Option (List Step)
  buy_transaction page buyer lamports = do
    wsol_ata ← get_associated_token_address native_mint buyer false
    buyer_ata ← get_associated_token_address (chosen page).token_mint buyer false
    config ← chain.fetch_config (find_config_pda sol)
    some (
        wrap_sol has_account wsol_ata buyer native_mint lamports
        ++ (add_missing has_account buyer_ata buyer (chosen page).token_mint
            ++ call (buy_instruction page buyer config wsol_ata buyer_ata lamports) ∷ []))

  unfoldable pub handle_buy : Option Page → Option PublicKey → Option ℕ → Bool → Attempt
  unfolding attempt buy_transaction
  handle_buy (some page) (some wallet) (some lamports) confirmed =
      attempt (buy_transaction page wallet lamports) confirmed
  handle_buy _ _ _ confirmed = ignored

  unfoldable pub sell_tokens_instruction :
      Page → PublicKey → ConfigData → PublicKey → PublicKey → ℕ → Instruction
  sell_tokens_instruction page seller config wsol_ata seller_ata tokens = record {
    method = "sellTokens";
    args = num page.selected_side ∷ num tokens ∷ num 1 ∷ [];
    accounts =
        "seller" ⇒ seller
        ∷ "market" ⇒ page.market_key
        ∷ "sideAccount" ⇒ pick page.selected_side page.market.side_a page.market.side_b
        ∷ "tokenMint" ⇒ (chosen page).token_mint
        ∷ "tokenVault" ⇒ (chosen page).token_reserve_vault
        ∷ "sellerTokenAccount" ⇒ seller_ata
        ∷ "quoteMint" ⇒ native_mint
        ∷ "quoteVault" ⇒ (chosen page).quote_reserve_vault
        ∷ "sellerQuoteAccount" ⇒ wsol_ata
        ∷ "protocolFeeAccount" ⇒ config.protocol_fee_account
        ∷ "creatorFeeAccount" ⇒ page.market.creator_fee_account
        ∷ "config" ⇒ find_config_pda sol
        ∷ "tokenProgram" ⇒ token_program_id
        ∷ "quoteTokenProgram" ⇒ token_program_id
        ∷ [];
    signers = [];
  }

  unfoldable pub sell_post_resolution_instruction :
      Page → PublicKey → PublicKey → PublicKey → ℕ → Instruction
  sell_post_resolution_instruction page seller wsol_ata seller_ata tokens = record {
    method = "sellPostResolution";
    args = num page.selected_side ∷ num tokens ∷ num 0 ∷ [];
    accounts =
        "seller" ⇒ seller
        ∷ "market" ⇒ page.market_key
        ∷ "sideAccount" ⇒ pick page.selected_side page.market.side_a page.market.side_b
        ∷ "tokenMint" ⇒ (chosen page).token_mint
        ∷ "tokenVault" ⇒ (chosen page).token_reserve_vault
        ∷ "sellerTokenAccount" ⇒ seller_ata
        ∷ "quoteMint" ⇒ native_mint
        ∷ "quoteVault" ⇒ (chosen page).quote_reserve_vault
        ∷ "sellerQuoteAccount" ⇒ wsol_ata
        ∷ "config" ⇒ find_config_pda sol
        ∷ "tokenProgram" ⇒ token_program_id
        ∷ "quoteTokenProgram" ⇒ token_program_id
        ∷ [];
    signers = [];
  }

  unfoldable pub sell_instruction :
      MarketPhase → Page → PublicKey → ConfigData → PublicKey → PublicKey → ℕ → Instruction
  sell_instruction resolved page seller config wsol_ata seller_ata tokens =
      sell_post_resolution_instruction page seller wsol_ata seller_ata tokens
  sell_instruction _ page seller config wsol_ata seller_ata tokens =
      sell_tokens_instruction page seller config wsol_ata seller_ata tokens

  -- The configuration is fetched in both phases. `now_ms` is the time of the last render.
  unfoldable pub sell_transaction : ℕ → Page → PublicKey → ℕ → Option (List Step)
  sell_transaction now_ms page seller tokens = do
    seller_ata ← get_associated_token_address (chosen page).token_mint seller false
    wsol_ata ← get_associated_token_address native_mint seller false
    config ← chain.fetch_config (find_config_pda sol)
    let phase = get_market_phase now_ms page.schedule
    let sell_ix = sell_instruction phase page seller config wsol_ata seller_ata tokens
    some (add_missing has_account wsol_ata seller native_mint ++ call sell_ix ∷ [])

  unfoldable pub handle_sell : ℕ → Option Page → Option PublicKey → Option ℕ → Bool → Attempt
  unfolding attempt sell_transaction
  handle_sell now_ms (some page) (some wallet) (some tokens) confirmed =
      attempt (sell_transaction now_ms page wallet tokens) confirmed
  handle_sell now_ms _ _ _ confirmed = ignored

-- `twapProgress`: the seconds elapsed of the window, whose quotient by the window is shown, the
-- samples so far, and how many the window holds. `now` is in whole seconds.
unfoldable pub twap_progress : ℕ → Schedule → ℕ → ℕ → Option (ℕ × ℕ × ℕ)
twap_progress now m interval samples =
    let elapsed = min (now + m.twap_window - m.deadline) m.twap_window in
    let max_samples = if ltb 0 interval then m.twap_window / interval else 0 in
    if ltb (now + m.twap_window) m.deadline then none else some (elapsed, samples, max_samples)
