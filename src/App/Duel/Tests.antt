-- ===== src/App/Duel/Tests.antt =====
-- The page of a market on an example, and its laws there.
use mathlib.Core.Option
use duel_protocol.Prelude.{
  ℕ, ◌≡◌, ◌/◌, arith, refl, Option, none, some, none-ne-some, Bool, true, false, [], ◌∷◌, ◌++◌,
}
use duel_protocol.Sdk.Solana.{PublicKey, Solana, codes, ◌>>=◌}
use duel_protocol.Sdk.Client.{
  Chain, MarketData, SideData, ConfigData, create_associated_token_account,
}
use duel_protocol.Sdk.Client.Trading.{build_buy_tokens}
use duel_protocol.App.{Schedule, get_market_phase}
use duel_protocol.App.Pda.Laws.{as_app}
use duel_protocol.App.Transaction.{
  prepare, transfer, sync_native, call, ignored, add_missing, wrap_sol,
}
use duel_protocol.App.Duel.{Page, buy_instruction, buy_transaction, handle_buy}
use duel_protocol.App.Duel.Laws.{IsLoaded, steps, buy_transaction-build}
use duel_protocol.App.Duel.Gates
use duel_protocol.App.Duel.Gates.{accepts_buy}
use duel_protocol.App.Duel.Offers.{
  schedule_of, offers_purchase, offers_sale, accepts_sale, sale, offers_purchase-accepts_buy,
  offers_sale-accepted,
}
use duel_protocol.App.Duel.Fetch.{Balances, initial, fetch_data}
use duel_protocol.App.Duel.Fetch.Laws.{answered, IsHeld, fetch_data-IsHeld}

abbrev sol : Solana
sol = record {
  public_key = codes;
  find_program_address = λ s p. (9 ∷ [], 255);
  get_associated_token_address = λ mint owner off. some (mint ++ owner);
  token_program_id = 1 ∷ [];
  native_mint = 2 ∷ [];
  system_program_id = 3 ∷ [];
  sysvar_rent_pubkey = 4 ∷ [];
}

abbrev market : MarketData
market = record {
  side_a = 11 ∷ [];
  side_b = 12 ∷ [];
  quote_mint = 2 ∷ [];
  creator_fee_account = 13 ∷ [];
}

abbrev side : SideData
side = record { token_mint = 21 ∷ []; token_reserve_vault = 22 ∷ []; quote_reserve_vault = 23 ∷ [] }

abbrev config : ConfigData
config = record { protocol_fee_account = 31 ∷ [] }

abbrev has_account : PublicKey → Bool
has_account k = false

abbrev chain : Chain
chain = record {
  fetch_market = λ k. some market;
  fetch_side = λ k. some side;
  fetch_config = λ k. some config;
  fetch_compare_duel = λ k. none;
  fetch_deposit = λ k. none;
  account_exists = λ k. some (has_account k);
}

abbrev schedule : Schedule
schedule = record { deadline = 1000; twap_window = 100; is_resolved = false }

abbrev page : Page
page = record {
  market_key = 10 ∷ [];
  market = market;
  schedule = schedule;
  side_a = side;
  side_b = side;
  selected_side = 1;
}

abbrev wallet : PublicKey
wallet = 7 ∷ []

loaded : IsLoaded sol chain has_account page config
loaded = record {
  market = refl;
  side_a = refl;
  side_b = refl;
  config_account = refl;
  accounts = λ k. refl;
}

not_a_number : handle_buy sol chain has_account (some page) (some wallet) none true ≡ ignored
unfolding handle_buy
not_a_number = refl

-- Both accounts are missing, and the wrapped SOL is of the amount to spend.
buy_run :
    buy_transaction sol chain has_account page wallet 500
    ≡ some (
        prepare (create_associated_token_account wallet (2 ∷ wallet) wallet (2 ∷ []))
        ∷ transfer wallet (2 ∷ wallet) 500
        ∷ sync_native (2 ∷ wallet)
        ∷ prepare (create_associated_token_account wallet (21 ∷ wallet) wallet (21 ∷ []))
        ∷ call (
            buy_instruction sol chain has_account page wallet config (2 ∷ wallet) (21 ∷ wallet) 500)
        ∷ [])
unfolding buy_transaction wrap_sol add_missing
buy_run = refl

abbrev spent : ℕ
spent = 500

buy_transaction-build_example : buy_transaction sol chain has_account page wallet spent ≡ (
    sol.get_associated_token_address sol.native_mint wallet false >>= (λ wsol_ata.
      Option.map
        (λ built. wrap_sol has_account wsol_ata wallet sol.native_mint spent ++ steps built)
        (build_buy_tokens
          (as_app sol)
          chain
          page.market_key
          page.selected_side
          spent
          1
          wallet
          sol.native_mint)))
buy_transaction-build_example =
    buy_transaction-build sol chain has_account page config loaded wallet spent

abbrev balances : Balances
balances = record { vault = λ k. some 40; token_account = λ k. none }

abbrev user : Option PublicKey
user = some wallet

initial-IsHeld : IsHeld chain page.market_key initial
initial-IsHeld = record {
  market = λ m at. absurd (none-ne-some at);
  side_a = λ a at. absurd (none-ne-some at);
  side_b = λ b at. absurd (none-ne-some at);
}

fetch_data-IsHeld_example :
    IsHeld chain page.market_key (fetch_data sol chain balances page.market_key user initial)
    × ((fetch_data sol chain balances page.market_key user initial).loading ≡ false)
fetch_data-IsHeld_example =
    fetch_data-IsHeld sol chain chain balances page.market_key user initial (answered refl)
      (λ k. answered refl) initial-IsHeld

-- Ten seconds after the deadline, with the market not resolved yet.
abbrev late : Gates.Market
late = record { deadline = 2000; is_resolved = false; winner = none; locked = false }

offers_purchase-accepts_buy_example :
    offers_purchase true (get_market_phase 1500000 (schedule_of late 600)) none
    ≡ accepts_buy false (1500000 / 1000) late 10
offers_purchase-accepts_buy_example =
    offers_purchase-accepts_buy 1500000 600 late refl 10 (omega arith)

abbrev quote : Gates.Quote
quote = record { raw_quote = 40; net_quote = 39; vault_balance = 100 }

offers_sale-accepted_example :
    let phase = get_market_phase 2010000 (schedule_of late 600) in
    (offers_sale true 5 phase none ≡ true)
    × (accepts_sale false
          (2010000 / 1000)
          late
          quote
          (sale sol chain has_account page (20 ∷ []) (21 ∷ []) (22 ∷ []) config phase 3)
        ≡ false)
offers_sale-accepted_example =
    offers_sale-accepted 2010000 600 late refl sol chain has_account page (20 ∷ []) (21 ∷ [])
      (22 ∷ []) config quote 3 5 (omega arith) (omega arith)
