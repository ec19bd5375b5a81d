-- ===== src/App/Duel/Fetch.antt =====
-- What the page of a market fetches, `fetchData` of app/app/duels/[id]/page.tsx, as it mounts and
-- every five seconds.
pub mod Laws
use duel_protocol.Prelude.{ℕ, Option, none, some, Bool, true, false}
use duel_protocol.Sdk.Solana.{PublicKey, Solana, ◌>>=◌}
use duel_protocol.Sdk.Client.{Chain, MarketData, SideData}
use duel_protocol.App.{Schedule}
use duel_protocol.App.Duel.{Page}

-- The state of the page that the fetch sets.
pub record Fetched : Type 0 where
  pub market : Option MarketData
  pub side_a : Option SideData
  pub side_b : Option SideData
  pub reserve_a : ℕ
  pub reserve_b : ℕ
  pub user_balance_a : ℕ
  pub user_balance_b : ℕ
  pub loading : Bool

-- The balance of a vault and the amount of a token account; `none` is a call that throws.
pub record Balances : Type 0 where
  pub vault : PublicKey → Option ℕ
  pub token_account : PublicKey → Option ℕ

abbrev pub initial : Fetched
initial = record {
  market = none;
  side_a = none;
  side_b = none;
  reserve_a = 0;
  reserve_b = 0;
  user_balance_a = 0;
  user_balance_b = 0;
  loading = true;
}

-- The reserves are set when both are fetched.
unfoldable pub set_reserves : Option ℕ → Option ℕ → Fetched → Fetched
set_reserves (some a) (some b) s = record s { reserve_a = a; reserve_b = b }
set_reserves _ _ s = s

-- A balance that is not fetched counts as none held.
unfoldable pub balance_or_zero : Option ℕ → ℕ
balance_or_zero (some n) = n
balance_or_zero none = 0

module _ (sol : Solana) (chain : Chain) (balances : Balances) where
  unfoldable pub user_balance : SideData → PublicKey → ℕ
  unfolding balance_or_zero
  user_balance side user = balance_or_zero (do
    ata ← sol.get_associated_token_address side.token_mint user false
    balances.token_account ata)

  unfoldable pub set_user_balances : SideData → SideData → Option PublicKey → Fetched → Fetched
  unfolding user_balance
  set_user_balances a b none s = s
  set_user_balances a b (some user) s = record s {
    user_balance_a = user_balance a user;
    user_balance_b = user_balance b user;
  }

  -- Both sides are set once both are fetched.
  unfoldable pub set_sides :
      Option SideData → Option SideData → Option PublicKey → Fetched → Fetched
  unfolding set_reserves set_user_balances
  set_sides (some a) (some b) user s =
      let held = record s { side_a = some a; side_b = some b } in
      let vault_a = balances.vault a.quote_reserve_vault in
      let vault_b = balances.vault b.quote_reserve_vault in
      set_user_balances a b user (set_reserves vault_a vault_b held)
  set_sides _ _ user s = s

  -- The outer `try`.
  unfoldable pub set_market : Option MarketData → Option PublicKey → Fetched → Fetched
  unfolding set_sides
  set_market none user s = s
  set_market (some m) user s =
      set_sides (chain.fetch_side m.side_a) (chain.fetch_side m.side_b) user
        (record s { market = some m })

  unfoldable pub fetch_data : PublicKey → Option PublicKey → Fetched → Fetched
  unfolding set_market
  fetch_data market_key user s =
      let after = set_market (chain.fetch_market market_key) user s in
      record after { loading = false }

-- What the handlers need before they go on: `!market || !sideA || !sideB`. The schedule is a part
-- of the market's account.
unfoldable pub page_of :
    PublicKey → Schedule → ℕ → Option MarketData → Option SideData → Option SideData → Option Page
page_of market_key schedule selected (some m) (some a) (some b) = some (record {
  market_key = market_key;
  market = m;
  schedule = schedule;
  side_a = a;
  side_b = b;
  selected_side = selected;
})
page_of market_key schedule selected _ _ _ = none
