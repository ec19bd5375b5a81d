-- ===== src/Backend/Ingest.antt =====
-- The event handling and the recovery of backend/src/indexer.ts. Keys are their base58 texts. The
-- database, the decoder of logs and the program's accounts are inputs.
pub mod Rows
pub mod Laws
pub mod Cursor
pub mod Reserves
pub mod Refusals
mod Tests
use duel_protocol.Prelude.{
  ℕ, ◌*◌, String, Bool, true, false, Option, none, some, List, [], ◌∷◌, ◌++◌, map, length, ltb,
  if◌then◌else◌,
}
use duel_protocol.Sdk.Solana.{◌>>=◌}
use duel_protocol.Rpc.{Signature, Transaction, Connection, usable_logs, each_batch}
use duel_protocol.Backend.Db.{Statement, upsert_market, insert_trade, insert_twap_sample}
use Rows.{
  Event, market_created, tokens_bought, tokens_sold, twap_sampled, market_resolved, other, Fetched,
  created_row, trade_row, sample_row, resolved_row, synced_row,
}

-- What has been written: the statements run, oldest first, and the row `last_processed_slot` of
-- indexer_state.
pub record Store : Type 0 where
  pub statements : List Statement
  pub last_processed_slot : Option ℕ

-- `signatures.filter((s) => s.slot > startSlot)`
unfoldable pub after_slot : ℕ → List Signature → List Signature
after_slot start [] = []
after_slot start (g ∷ gs) =
    let rest = after_slot start gs in if ltb start g.slot then g ∷ rest else rest

-- `lastSlot ? parseInt(lastSlot, 10) : 0`
abbrev pub start_slot : Store → ℕ
start_slot s = elim s.last_processed_slot [ none ↦ 0 | some slot' ↦ slot' ]

unfoldable pub unprocessed : ℕ → List Signature → List Signature
unfolding after_slot
unprocessed start signatures = if ltb 0 start then after_slot start signatures else signatures

-- Which statements, and which slots of `setState`, the database accepts after those it has run.
pub record Database : Type 0 where
  pub accepts : List Statement → Statement → Bool
  pub accepts_slot : List Statement → ℕ → Bool

module _ (db : Database) where
  -- The store after a query, and whether it succeeded.
  unfoldable pub query : Statement → Store → Store × Bool
  query q s =
      if db.accepts s.statements q
      then (record s { statements = s.statements ++ q ∷ [] }, true)
      else (s, false)

  unfoldable pub set_slot : ℕ → Store → Store
  set_slot slot' s =
      if db.accepts_slot s.statements slot'
      then record s { last_processed_slot = some slot' }
      else s

  module _ (fetch : String → Option Fetched) (now_ms : ℕ) where
    -- `syncSingleMarket` catches every error.
    unfoldable pub sync_single_market : String → Store → Store
    unfolding query
    sync_single_market market' s = elim (fetch market') [
      | none ↦ s
      | some found ↦ (query (upsert_market (synced_row now_ms market' found)) s).0
    ]

    -- `syncAllMarkets`, over the markets listed; `none` when the listing throws.
    unfoldable pub sync_each : List String → Store → Store
    unfolding sync_single_market
    sync_each [] s = s
    sync_each (m ∷ ms) s = sync_each ms (sync_single_market m s)

    unfoldable pub sync_all_markets : Option (List String) → Store → Store
    sync_all_markets none s = s
    sync_all_markets (some markets) s = sync_each markets s

    -- The `switch` of `handleEvent`, and whether it ran to its end.
    unfoldable pub on_event : Event → ℕ → Store → Store × Bool
    unfolding query sync_single_market
    on_event (market_created d) slot' s =
        let upserted = query (upsert_market (created_row d)) s in
        if upserted.1 then (sync_single_market d.market upserted.0, true) else upserted
    on_event (tokens_bought d) slot' s = query (insert_trade (trade_row d "buy" slot')) s
    on_event (tokens_sold d) slot' s = query (insert_trade (trade_row d "sell" slot')) s
    on_event (twap_sampled d) slot' s = query (insert_twap_sample (sample_row d slot')) s
    on_event (market_resolved d) slot' s = query (upsert_market (resolved_row d)) s
    on_event other slot' s = (s, true)

    -- Errors are caught, and then the slot is not stored.
    unfoldable pub handle_event : Event → ℕ → Store → Store
    unfolding on_event set_slot
    handle_event e slot' s =
        let handled = on_event e slot' s in
        if handled.1 then set_slot slot' handled.0 else handled.0

    unfoldable pub handle_events : List Event → ℕ → Store → Store
    handle_events [] slot' s = s
    handle_events (e ∷ es) slot' s = handle_events es slot' (handle_event e slot' s)

    module _ (parse_logs : List String → List Event) (connection : Connection) where
      unfoldable pub ingest_tx : Option Transaction → Store → Store
      ingest_tx tx s = elim (usable_logs tx) [
        | none ↦ s
        | some (slot', logs) ↦ handle_events (parse_logs logs) slot' s
      ]

      unfoldable pub ingest_txs : List (Option Transaction) → Store → Store
      ingest_txs [] s = s
      ingest_txs (tx ∷ txs) s = ingest_txs txs (ingest_tx tx s)

      -- One batch. The flag is cleared when the connection fails, which ends the loop.
      unfoldable pub ingest_batch : List Signature → Store × Bool → Option (Store × Bool)
      ingest_batch batch (s, false) = some (s, false)
      ingest_batch batch (s, true) =
          elim (connection.get_transactions (map (λ (g : Signature). g.signature) batch)) [
            | none ↦ some (s, false)
            | some txs ↦ some (ingest_txs txs s, true)
          ]

      unfoldable pub backfill_from_slot : ℕ → Store → Option Store
      unfolding unprocessed
      backfill_from_slot limit s = elim (connection.get_signatures_for_address limit) [
        | none ↦ some s
        | some signatures ↦ (do
          let gs = unprocessed (start_slot s) signatures
          done ← each_batch (length gs) ingest_batch gs (s, true)
          some done.0)
      ]
