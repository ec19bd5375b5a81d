-- ===== src/App/Duel/Offers.antt =====
-- What the page of a market offers, and what the program makes of it.
use duel_protocol.Prelude.{
  ℕ, String, List, [], ◌∷◌, leb, ◌/◌, ◌<◌, ◌≤◌, ◌≡◌, refl, ◌∙◌, Bool, true, false, Option, ltb,
  ◌&&◌, ◌||◌, not, arith, if◌then◌else◌,
}
use duel_protocol.App.{MarketPhase, active, twap, resolved, Schedule, get_market_phase}
use text.Mathlib.Text.{◌==◌ as str_eq}
use duel_protocol.Sdk.Solana.{PublicKey, Solana}
use duel_protocol.Sdk.Client.{Arg, num, Instruction, Chain, ConfigData}
use duel_protocol.App.Duel.{
  Page, sell_instruction, sell_tokens_instruction, sell_post_resolution_instruction,
}
use duel_protocol.App.Duel.Gates.{
  Market, Quote, is_none, accepts_buy, accepts_sell, accepts_sell_post_resolution,
}

abbrev pub is_over : MarketPhase → Bool
is_over resolved = true
is_over _ = false

-- What the page reads of the market.
abbrev pub schedule_of : Market → ℕ → Schedule
schedule_of m window = record {
  deadline = m.deadline;
  twap_window = window;
  is_resolved = m.is_resolved;
}

-- `isResolved && hasWinner`, the panel that shows the winner in place of the form.
abbrev pub shows_winner : MarketPhase → Option ℕ → Bool
shows_winner phase winner = is_over phase && not (is_none winner)

-- The button BUY is there and not `disabled={!anchorWallet || isResolved}`.
unfoldable pub offers_purchase : Bool → MarketPhase → Option ℕ → Bool
offers_purchase wallet phase winner =
    not (shows_winner phase winner) && not (not wallet || is_over phase)

-- The button SELL is there and not disabled; `balance` is that of the side selected.
unfoldable pub offers_sale : Bool → ℕ → MarketPhase → Option ℕ → Bool
offers_sale wallet balance phase winner =
    if shows_winner phase winner then wallet else wallet && ltb 0 balance

-- Whether the guards let an instruction through, by its method and its arguments: the side, the
-- tokens and the least quote.
abbrev pub accepts_args : Bool → ℕ → Market → Quote → String → List Arg → Bool
accepts_args paused now m q method (num side ∷ num tokens ∷ num least ∷ []) =
    if str_eq method "sellPostResolution"
    then accepts_sell_post_resolution paused m q tokens least
    else if str_eq method "sellTokens"
    then accepts_sell paused now m q tokens least
    else false
accepts_args paused now m q method _ = false

abbrev pub accepts_sale : Bool → ℕ → Market → Quote → Instruction → Bool
accepts_sale paused now m q ix = accepts_args paused now m q ix.method ix.args

module _ (sol : Solana) (chain : Chain) (has_account : PublicKey → Bool) (page : Page)
    (seller wsol_ata seller_ata : PublicKey) (config : ConfigData) where
  -- The instruction of `handleSell` in a phase.
  abbrev pub sale : MarketPhase → ℕ → Instruction
  sale phase tokens =
      sell_instruction sol chain has_account phase page seller config wsol_ata seller_ata tokens

  sale_accepted-over :
      (now : ℕ) (m : Market) (q : Quote) (phase : MarketPhase) (tokens : ℕ)
      → accepts_sale false now m q (sale phase tokens) ≡ (
          if is_over phase
          then accepts_sell_post_resolution false m q tokens 0
          else accepts_sell false now m q tokens 1)
  unfolding sell_instruction sell_tokens_instruction sell_post_resolution_instruction
  sale_accepted-over now m q active tokens = refl
  sale_accepted-over now m q twap tokens = refl
  sale_accepted-over now m q resolved tokens = refl

module _ (now_ms window : ℕ) (m : Market) (unlocked : m.locked ≡ false) where
  over_iff :
      is_over (get_market_phase now_ms (schedule_of m window))
      ≡ (m.is_resolved || not (ltb (now_ms / 1000) m.deadline))
  unfolding get_market_phase
  over_iff = ground arith

  -- For a market that is not locked while the protocol is not paused, with the page on the clock
  -- of the chain, a wallet connected and a positive amount, BUY is offered exactly when the guards
  -- of the program on the market, the clock and the configuration accept the purchase.
  pub offers_purchase-accepts_buy :
      (lamports : ℕ)
      → 0 < lamports
      → offers_purchase true (get_market_phase now_ms (schedule_of m window)) m.winner
        ≡ accepts_buy false (now_ms / 1000) m lamports
  unfolding offers_purchase accepts_buy
  offers_purchase-accepts_buy lamports some_sol = ground (arith, over_iff)

  module _ (sol : Solana) (chain : Chain) (has_account : PublicKey → Bool) (page : Page)
      (seller wsol_ata seller_ata : PublicKey) (config : ConfigData) where
    -- For a market that is not locked while the protocol is not paused, with the page on the clock
    -- of the chain, a wallet connected and a balance that holds the tokens, at least one, SELL is
    -- offered whatever the phase, and the guards on the configuration, the market, the clock, the
    -- amount, the quote and the vault let through what handleSell builds exactly when the vault
    -- holds the quote and the market is either resolved without a winner, or not resolved, before
    -- its deadline and with a quote after the fee that is not zero.
    pub offers_sale-accepted :
        (q : Quote) (tokens balance : ℕ)
        → 0 < tokens
        → tokens ≤ balance
        → let phase = get_market_phase now_ms (schedule_of m window) in
          (offers_sale true balance phase m.winner ≡ true)
          × (accepts_sale false
                (now_ms / 1000)
                m
                q
                (sale sol chain has_account page seller wsol_ata seller_ata config phase tokens)
              ≡ (if m.is_resolved
                  then is_none m.winner && leb q.raw_quote q.vault_balance
                  else ltb (now_ms / 1000) m.deadline
                    && ltb 0 q.net_quote
                    && leb q.raw_quote q.vault_balance))
    unfolding offers_sale accepts_sell accepts_sell_post_resolution
    offers_sale-accepted q tokens balance some_tokens held =
        let phase = get_market_phase now_ms (schedule_of m window) in
        (
          ground arith,
          sale_accepted-over sol chain has_account page seller wsol_ata seller_ata config
                (now_ms / 1000) m q phase tokens
              ∙ ground (arith, over_iff),
        )
