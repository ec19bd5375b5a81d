-- ===== src/Backend/Ingest/Reserves.antt =====
-- `updateReserves` of backend/src/indexer.ts.
use duel_protocol.Prelude.{ℕ, String, Option, none, some, List, [], ◌∷◌}
use duel_protocol.Backend.Db.{Row, str, num, upsert_market}
use duel_protocol.Backend.Ingest.{Store, Database, query}

-- A row of `getActiveMarkets`; `none` is null or an empty text.
pub record ActiveMarket : Type 0 where
  pub pubkey : String
  pub side_a_pubkey : Option String
  pub side_b_pubkey : Option String

-- What the two sides and their vaults hold.
pub record SideReserves : Type 0 where
  pub reserve_a : ℕ
  pub reserve_b : ℕ
  pub circulating_a : ℕ
  pub circulating_b : ℕ

unfoldable pub reserves_row : String → SideReserves → Row
reserves_row pubkey r =
    ("pubkey", str pubkey)
    ∷ ("reserve_a", num r.reserve_a)
    ∷ ("reserve_b", num r.reserve_b)
    ∷ ("circulating_a", num r.circulating_a)
    ∷ ("circulating_b", num r.circulating_b)
    ∷ []

-- `fetch` gives both sides and the balances of both vaults, or `none` when one of them throws.
module _ (db : Database) (fetch : String → String → Option SideReserves) where
  unfoldable pub write_reserves : String → Option SideReserves → Store → Store
  write_reserves pubkey none s = s
  write_reserves pubkey (some r) s = (query db (upsert_market (reserves_row pubkey r)) s).0

  unfoldable pub update_market_reserves : ActiveMarket → Store → Store
  unfolding write_reserves
  update_market_reserves m s = elim m.side_a_pubkey [
    | none ↦ s
    | some a ↦ elim m.side_b_pubkey [ none ↦ s | some b ↦ write_reserves m.pubkey (fetch a b) s ]
  ]

  -- The markets are `none` when their query fails.
  unfoldable pub update_each : List ActiveMarket → Store → Store
  update_each [] s = s
  update_each (m ∷ ms) s = update_each ms (update_market_reserves m s)

  unfoldable pub update_reserves : Option (List ActiveMarket) → Store → Store
  update_reserves none s = s
  update_reserves (some ms) s = update_each ms s
