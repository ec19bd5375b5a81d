-- ===== src/App/Duel/Laws.antt =====
-- The transactions of the page carry the instructions that the SDK builds.
use mathlib.Core.Option
use duel_protocol.Prelude.{
  ℕ, ◌≡◌, refl, Option, none, some, Option-cases, Bool, false, Bool-cases, inl, inr, List, [], ◌∷◌,
  ◌++◌, map, ◌==◌,
}
use duel_protocol.Sdk.Solana.{PublicKey, Solana, ◌>>=◌}
use duel_protocol.Sdk.Pda
use duel_protocol.Sdk.Client.{Instruction, PreInstruction, Chain, ConfigData, pick}
use duel_protocol.Sdk.Client.Trading.{
  build_buy_tokens, build_sell_tokens, build_sell_post_resolution,
}
use duel_protocol.App.{MarketPhase, active, twap, resolved, get_market_phase}
use duel_protocol.App.Pda.{find_config_pda}
use duel_protocol.App.Pda.Laws.{as_app, find_pda-DerivesAlike}
use duel_protocol.App.Transaction.{Step, prepare, call, add_missing, wrap_sol}
use duel_protocol.App.Duel.{
  Page, chosen, buy_instruction, buy_transaction, sell_instruction, sell_tokens_instruction,
  sell_post_resolution_instruction, sell_transaction,
}

-- The page holds what the chain answers, and `getAccount` finds what `getAccountInfo` finds.
pub record IsLoaded (sol : Solana) (chain : Chain) (has_account : PublicKey → Bool) (page : Page)
    (config : ConfigData) : Type 0 where
  pub market : chain.fetch_market page.market_key ≡ some page.market
  pub side_a : chain.fetch_side page.market.side_a ≡ some page.side_a
  pub side_b : chain.fetch_side page.market.side_b ≡ some page.side_b
  pub config_account : chain.fetch_config (find_config_pda sol) ≡ some config
  pub accounts : (k : PublicKey) → chain.account_exists k ≡ some (has_account k)

-- The steps of an instruction built with what goes before it.
abbrev pub steps : List PreInstruction × Instruction → List Step
steps (before, ix) = map prepare before ++ call ix ∷ []

module _ (sol : Solana) (chain : Chain) (page : Page) where
  -- What the SDK builds for a sale: after the resolution for any proceeds, before for at least one
  -- lamport.
  unfoldable pub build_sale : MarketPhase → PublicKey → ℕ → Option Instruction
  build_sale resolved seller tokens =
      build_sell_post_resolution (as_app sol) chain page.market_key page.selected_side tokens 0
        seller sol.native_mint
  build_sale _ seller tokens =
      build_sell_tokens (as_app sol) chain page.market_key page.selected_side tokens 1 seller
        sol.native_mint

module _ (sol : Solana) (chain : Chain) (has_account : PublicKey → Bool) (page : Page)
    (config : ConfigData) (loaded : IsLoaded sol chain has_account page config) where
  side_loaded :
      chain.fetch_side (pick page.selected_side page.market.side_a page.market.side_b)
      ≡ some (chosen page)
  side_loaded = elim (Bool-cases (page.selected_side == 0)) [
    | inl first ↦ rw first loaded.side_a
    | inr second ↦ rw second loaded.side_b
  ]

  config_loaded : chain.fetch_config (Pda.find_config_pda (as_app sol)).0 ≡ some config
  config_loaded = rw⁻¹ (find_pda-DerivesAlike sol).config loaded.config_account

  -- Where the page holds what the chain answers and the accounts found are the same, the purchase
  -- it sends is the SOL wrapped for the amount, followed by what the SDK under the app's program
  -- builds for at least one token, and it fails where that fails.
  pub buy_transaction-build :
      (buyer : PublicKey) (lamports : ℕ)
      → buy_transaction sol chain has_account page buyer lamports ≡ (
          sol.get_associated_token_address sol.native_mint buyer false >>= (λ wsol_ata.
            Option.map
              (λ built. wrap_sol has_account wsol_ata buyer sol.native_mint lamports ++ steps built)
              (build_buy_tokens
                (as_app sol)
                chain
                page.market_key
                page.selected_side
                lamports
                1
                buyer
                sol.native_mint)))
  unfolding buy_transaction build_buy_tokens buy_instruction add_missing find_config_pda
      Pda.find_config_pda
  buy_transaction-build buyer lamports =
      let mint = (chosen page).token_mint in
      elim (Option-cases (sol.get_associated_token_address sol.native_mint buyer false)) [
        | inl off ↦ rw off refl
        | inr (wsol_ata, on) ↦
            elim (Option-cases (sol.get_associated_token_address mint buyer false)) [
              | inl off ↦ rw (on, loaded.market, side_loaded, config_loaded, off) refl
              | inr (ata, on') ↦ elim (Bool-cases (has_account ata)) [
                | inl there ↦
                    rw
                      (
                        on,
                        loaded.market,
                        side_loaded,
                        config_loaded,
                        on',
                        loaded.accounts ata,
                        there,
                      )
                      refl
                | inr missing ↦
                    rw
                      (
                        on,
                        loaded.market,
                        side_loaded,
                        config_loaded,
                        on',
                        loaded.accounts ata,
                        missing,
                      )
                      refl
              ]
            ]
      ]

  build_sale-some :
      (p : MarketPhase) (seller : PublicKey) (tokens : ℕ) (ata wsol_ata : PublicKey)
      → sol.get_associated_token_address (chosen page).token_mint seller false ≡ some ata
      → sol.get_associated_token_address sol.native_mint seller false ≡ some wsol_ata
      → build_sale sol chain page p seller tokens
        ≡ some (sell_instruction sol chain has_account p page seller config wsol_ata ata tokens)
  unfolding build_sale build_sell_tokens build_sell_post_resolution sell_instruction
      sell_tokens_instruction sell_post_resolution_instruction find_config_pda Pda.find_config_pda
  build_sale-some resolved seller tokens ata wsol_ata on on' =
      rw (loaded.market, side_loaded, on, on') refl
  build_sale-some active seller tokens ata wsol_ata on on' =
      rw (loaded.market, side_loaded, config_loaded, on, on') refl
  build_sale-some twap seller tokens ata wsol_ata on on' =
      rw (loaded.market, side_loaded, config_loaded, on, on') refl

  build_sale-none :
      (p : MarketPhase) (seller : PublicKey) (tokens : ℕ)
      → sol.get_associated_token_address (chosen page).token_mint seller false ≡ none
      → build_sale sol chain page p seller tokens ≡ none
  unfolding build_sale build_sell_tokens build_sell_post_resolution
  build_sale-none resolved seller tokens off = rw (loaded.market, side_loaded, off) refl
  build_sale-none active seller tokens off =
      rw (loaded.market, side_loaded, config_loaded, off) refl
  build_sale-none twap seller tokens off = rw (loaded.market, side_loaded, config_loaded, off) refl

  -- Where the page holds what the chain answers, the sale it sends is the account for wrapped SOL
  -- if it is missing and the sale that the SDK under the app's program builds, after the
  -- resolution when the page shows the market as resolved and before otherwise.
  pub sell_transaction-build :
      (now_ms : ℕ) (seller : PublicKey) (tokens : ℕ)
      → sell_transaction sol chain has_account now_ms page seller tokens ≡ (
          sol.get_associated_token_address sol.native_mint seller false >>= (λ wsol_ata.
            Option.map
              (λ built. add_missing has_account wsol_ata seller sol.native_mint ++ call built ∷ [])
              (build_sale sol chain page (get_market_phase now_ms page.schedule) seller tokens)))
  unfolding sell_transaction
  sell_transaction-build now_ms seller tokens =
      let mint = (chosen page).token_mint in
      let phase = get_market_phase now_ms page.schedule in
      elim (Option-cases (sol.get_associated_token_address sol.native_mint seller false)) [
        | inl off ↦ elim (Option-cases (sol.get_associated_token_address mint seller false)) [
          | inl off' ↦ rw (off, off') refl
          | inr (ata, on') ↦ rw (off, on') refl
        ]
        | inr (wsol_ata, on) ↦
            elim (Option-cases (sol.get_associated_token_address mint seller false)) [
              | inl off ↦ rw (on, off, build_sale-none phase seller tokens off) refl
              | inr (ata, on') ↦
                  rw
                    (
                      on,
                      on',
                      loaded.config_account,
                      build_sale-some phase seller tokens ata wsol_ata on' on,
                    )
                    refl
            ]
      ]
