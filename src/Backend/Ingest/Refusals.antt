-- ===== src/Backend/Ingest/Refusals.antt =====
-- What the constraints of backend/migrations/001_initial.sql do to the rows of the indexer.
use text.Mathlib.Text.{◌==◌ as str_eq}
use duel_protocol.Prelude.{
  ℕ, ◌≡◌, refl, ◌∙◌, ap, String, Bool, true, false, List, [], ◌∷◌, ◌||◌, Option, some, none,
  Option-cases, inl, inr,
}
use duel_protocol.Backend.Db.{Statement, upsert_market}
use duel_protocol.Backend.Ingest.Rows.{
  Resolved, market_resolved, resolved_row, created_row, Created, Fetched,
}
use duel_protocol.Backend.Ingest.Reserves.{
  ActiveMarket, SideReserves, reserves_row, write_reserves, update_market_reserves, update_each,
  update_reserves,
}
use duel_protocol.Backend.Ingest.{Store, Database, query, on_event, handle_event}

abbrev pub names : String → List String → Bool
names k [] = false
names k (x ∷ xs) = str_eq x k || names k xs

-- PostgreSQL checks `NOT NULL` on the row to insert, before it looks for a conflict: a row of
-- markets without an authority, which has no default, is refused.
pub record ChecksNotNull (db : Database) : Type 0 where
  pub refused :
      (past : List Statement) (q : Statement)
      → q.table ≡ "markets"
      → names "authority" q.columns ≡ false
      → db.accepts past q ≡ false

module _ (db : Database) (checks : ChecksNotNull db) (fetch : String → Option Fetched)
    (now_ms : ℕ) where
  -- On a database that refuses rows of markets without an authority, handling a resolution changes
  -- nothing, neither the market nor the slot, while the row of a creation has an authority.
  pub handle_event_refused :
      (d : Resolved) (c : Created) (slot : ℕ) (s : Store)
      → (handle_event db fetch now_ms (market_resolved d) slot s ≡ s)
        × (names "authority" (upsert_market (created_row c)).columns ≡ true)
  unfolding handle_event on_event query upsert_market resolved_row created_row
  handle_event_refused d c slot s =
      let no = checks.refused s.statements (upsert_market (resolved_row d)) refl refl in
      (rw no refl, refl)

module _ (db : Database) (checks : ChecksNotNull db)
    (fetch : String → String → Option SideReserves) where
  query_refused :
      (q : Statement) (s : Store)
      → q.table ≡ "markets"
      → names "authority" q.columns ≡ false
      → query db q s ≡ (s, false)
  unfolding query
  query_refused q s on_markets lacking =
      rw (query, checks.refused s.statements q on_markets lacking) refl

  write_reserves_refused :
      (pubkey : String) (r : Option SideReserves) (s : Store)
      → write_reserves db fetch pubkey r s ≡ s
  unfolding write_reserves upsert_market reserves_row
  write_reserves_refused pubkey none s = refl
  write_reserves_refused pubkey (some r) s =
      ap (λ (p : Store × Bool). p.0)
        (query_refused (upsert_market (reserves_row pubkey r)) s refl refl)

  market_refused : (m : ActiveMarket) (s : Store) → update_market_reserves db fetch m s ≡ s
  unfolding update_market_reserves
  market_refused m s = elim (Option-cases m.side_a_pubkey) [
    | inl lost ↦ rw (update_market_reserves, lost) refl
    | inr (a, on) ↦ elim (Option-cases m.side_b_pubkey) [
      | inl lost ↦ rw (update_market_reserves, on, lost) refl
      | inr (b, on') ↦
          rw (update_market_reserves, on, on') (write_reserves_refused m.pubkey (fetch a b) s)
    ]
  ]

  each_refused : (ms : List ActiveMarket) (s : Store) → update_each db fetch ms s ≡ s
  unfolding update_each
  each_refused [] s = refl
  each_refused (m ∷ ms) s = ap (update_each db fetch ms) (market_refused m s) ∙ each_refused ms s

  -- On a database that refuses rows of markets without an authority, the update of the reserves
  -- changes nothing, whatever markets are active and whatever is fetched.
  pub update_reserves_refused :
      (markets : Option (List ActiveMarket)) (s : Store) → update_reserves db fetch markets s ≡ s
  unfolding update_reserves
  update_reserves_refused none s = refl
  update_reserves_refused (some ms) s = each_refused ms s
