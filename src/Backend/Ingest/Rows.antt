-- ===== src/Backend/Ingest/Rows.antt =====
-- The decoded events and the rows that backend/src/indexer.ts builds from them, and from the
-- accounts of a market.
use duel_protocol.Prelude.{
  ℕ, ◌+◌, ◌*◌, String, Bool, Option, none, some, [], ◌∷◌, leb, ltb, ◌&&◌, if◌then◌else◌,
}
use duel_protocol.Backend.Db.{Value, str, num, digits, null, Row}

pub record Created : Type 0 where
  pub market : String
  pub authority : String
  pub deadline : ℕ
  pub market_id : Option ℕ
  pub quote_mint : Option String

-- A purchase or a sale: `trader` is `buyer` or `seller`, `quote` is `quoteAmount` or
-- `quoteReceived`, `tokens` is `tokensReceived` or `tokenAmount`.
pub record Traded : Type 0 where
  pub market : String
  pub side : ℕ
  pub trader : String
  pub quote : ℕ
  pub tokens : ℕ
  pub new_price : ℕ
  pub fee_amount : Option ℕ

pub record Sampled : Type 0 where
  pub market : String
  pub price_a : ℕ
  pub price_b : ℕ
  pub sample_count : ℕ

pub record Resolved : Type 0 where
  pub market : String
  pub winner : ℕ
  pub final_twap_a : ℕ
  pub final_twap_b : ℕ
  pub loser_reserve_transferred : Option ℕ
  pub dex_pool : Option String
  pub sol_seeded : Option ℕ
  pub tokens_seeded : Option ℕ

pub data Event : Type 0 where
  market_created : Created → Event
  tokens_bought : Traded → Event
  tokens_sold : Traded → Event
  twap_sampled : Sampled → Event
  market_resolved : Resolved → Event
  other : Event

-- `?.toString() ?? "0"`, and `?? null`.
abbrev digits_or_zero : Option ℕ → Value
digits_or_zero none = digits 0
digits_or_zero (some n) = digits n

abbrev or_null : {A : Type 0} → (A → Value) → Option A → Value
or_null f none = null
or_null f (some a) = f a

unfoldable pub created_row : Created → Row
created_row d =
    ("pubkey", str d.market)
    ∷ ("authority", str d.authority)
    ∷ ("deadline", num d.deadline)
    ∷ ("market_id", or_null digits d.market_id)
    ∷ ("quote_mint", or_null str d.quote_mint)
    ∷ ("status", str "active")
    ∷ []

unfoldable pub trade_row : Traded → String → ℕ → Row
trade_row d trade_type slot =
    ("market_pubkey", str d.market)
    ∷ ("side", num d.side)
    ∷ ("trader", str d.trader)
    ∷ ("trade_type", str trade_type)
    ∷ ("sol_amount", digits d.quote)
    ∷ ("token_amount", digits d.tokens)
    ∷ ("price_after", digits d.new_price)
    ∷ ("fee_amount", digits_or_zero d.fee_amount)
    ∷ ("slot", num slot)
    ∷ []

unfoldable pub sample_row : Sampled → ℕ → Row
sample_row d slot =
    ("market_pubkey", str d.market)
    ∷ ("price_a", digits d.price_a)
    ∷ ("price_b", digits d.price_b)
    ∷ ("sample_count", num d.sample_count)
    ∷ ("slot", num slot)
    ∷ []

unfoldable pub resolved_row : Resolved → Row
resolved_row d =
    ("pubkey", str d.market)
    ∷ ("status", str "resolved")
    ∷ ("winner", num d.winner)
    ∷ ("final_twap_a", digits d.final_twap_a)
    ∷ ("final_twap_b", digits d.final_twap_b)
    ∷ ("loser_reserve_transferred", digits_or_zero d.loser_reserve_transferred)
    ∷ ("dex_pool", or_null str d.dex_pool)
    ∷ ("sol_seeded", digits_or_zero d.sol_seeded)
    ∷ ("tokens_seeded", digits_or_zero d.tokens_seeded)
    ∷ []

-- The two sides, when both are fetched, and the balances of the vaults, when both are.
pub record FetchedSides : Type 0 where
  pub circulating_a : ℕ
  pub circulating_b : ℕ
  pub token_mint_a : String
  pub token_mint_b : String
  pub vaults : Option (ℕ × ℕ)

-- The account of a market, and what `syncSingleMarket` could fetch of its sides.
pub record Fetched : Type 0 where
  pub authority : String
  pub deadline : ℕ
  pub twap_window : ℕ
  pub twap_interval : ℕ
  pub is_resolved : Bool
  pub winner : Option ℕ
  pub side_a : String
  pub side_b : String
  pub quote_mint : String
  pub sides : Option FetchedSides

-- Over the integers; the clock is in milliseconds.
unfoldable pub get_market_status : ℕ → Fetched → String
get_market_status now_ms market =
    if market.is_resolved
    then "resolved"
    else if leb (1000 * market.deadline) (now_ms + 1000 * market.twap_window)
        && ltb now_ms (1000 * market.deadline)
    then "twap"
    else if leb (1000 * market.deadline) now_ms
    then "twap"
    else "active"

-- What the variables of the sides hold after the inner `try`.
pub record SideVars : Type 0 where
  pub reserve_a : ℕ
  pub reserve_b : ℕ
  pub circulating_a : ℕ
  pub circulating_b : ℕ
  pub token_mint_a : Option String
  pub token_mint_b : Option String

unfoldable pub side_vars : Option FetchedSides → SideVars
side_vars none = record {
  reserve_a = 0;
  reserve_b = 0;
  circulating_a = 0;
  circulating_b = 0;
  token_mint_a = none;
  token_mint_b = none;
}
side_vars (some sides') =
    let balances = elim sides'.vaults as (λ _. ℕ × ℕ) [ none ↦ (0, 0) | some found ↦ found ] in
    record {
      reserve_a = balances.0;
      reserve_b = balances.1;
      circulating_a = sides'.circulating_a;
      circulating_b = sides'.circulating_b;
      token_mint_a = some sides'.token_mint_a;
      token_mint_b = some sides'.token_mint_b;
    }

unfoldable pub synced_row : ℕ → String → Fetched → Row
unfolding get_market_status side_vars
synced_row now_ms pubkey market =
    let vars = side_vars market.sides in
    ("pubkey", str pubkey)
    ∷ ("authority", str market.authority)
    ∷ ("deadline", num market.deadline)
    ∷ ("twap_window", num market.twap_window)
    ∷ ("twap_interval", num market.twap_interval)
    ∷ ("status", str (get_market_status now_ms market))
    ∷ ("winner", or_null num market.winner)
    ∷ ("reserve_a", num vars.reserve_a)
    ∷ ("reserve_b", num vars.reserve_b)
    ∷ ("side_a_pubkey", str market.side_a)
    ∷ ("side_b_pubkey", str market.side_b)
    ∷ ("token_mint_a", or_null str vars.token_mint_a)
    ∷ ("token_mint_b", or_null str vars.token_mint_b)
    ∷ ("circulating_a", num vars.circulating_a)
    ∷ ("circulating_b", num vars.circulating_b)
    ∷ ("quote_mint", str market.quote_mint)
    ∷ []
