-- ===== src/Backend/Ingest/Cursor.antt =====
-- Where the recovery leaves `last_processed_slot`.
use duel_protocol.Prelude.{ℕ, ◌≡◌, refl, ◌∙◌, ap, Option, some, true, List, [], ◌∷◌, map, String}
use duel_protocol.Rpc.{Signature, Transaction, Connection, IsLookup}
use duel_protocol.Backend.Db.{Statement}
use duel_protocol.Backend.Ingest.Rows.{
  Event, market_created, tokens_bought, tokens_sold, twap_sampled, market_resolved, other, Fetched,
}
use duel_protocol.Backend.Ingest.{
  Store, Database, query, set_slot, on_event, handle_event, unprocessed, start_slot,
  backfill_from_slot,
}
use duel_protocol.Backend.Ingest.Laws.{replay, listed, backfill_from_slot-replay}

-- A database that accepts every statement and every slot.
pub record IsOpen (db : Database) : Type 0 where
  pub all_accepted : (past : List Statement) (q : Statement) → db.accepts past q ≡ true
  pub slots_accepted : (past : List Statement) (slot : ℕ) → db.accepts_slot past slot ≡ true

-- The slot of the last event of a list, or a first value.
abbrev pub last_slot : List (ℕ × Event) → Option ℕ → Option ℕ
last_slot [] first = first
last_slot ((slot, e) ∷ es) first = last_slot es (some slot)

module _ (db : Database) (open_db : IsOpen db) (fetch : String → Option Fetched) (now_ms : ℕ) where
  on_event_ends : (e : Event) (slot : ℕ) (s : Store) → (on_event db fetch now_ms e slot s).1 ≡ true
  unfolding on_event query
  on_event_ends (market_created d) slot s = rw (open_db.all_accepted s.statements _) refl
  on_event_ends (tokens_bought d) slot s = rw (open_db.all_accepted s.statements _) refl
  on_event_ends (tokens_sold d) slot s = rw (open_db.all_accepted s.statements _) refl
  on_event_ends (twap_sampled d) slot s = rw (open_db.all_accepted s.statements _) refl
  on_event_ends (market_resolved d) slot s = rw (open_db.all_accepted s.statements _) refl
  on_event_ends other slot s = refl

  handle_event_slot :
      (e : Event) (slot : ℕ) (s : Store)
      → (handle_event db fetch now_ms e slot s).last_processed_slot ≡ some slot
  unfolding handle_event set_slot
  handle_event_slot e slot s =
      rw (on_event_ends e slot s)
        (rw (open_db.slots_accepted (on_event db fetch now_ms e slot s).0.statements slot) refl)

  replay_slot :
      (es : List (ℕ × Event)) (s : Store)
      → (replay db fetch now_ms es s).last_processed_slot ≡ last_slot es s.last_processed_slot
  replay_slot [] s = refl
  replay_slot ((slot, e) ∷ es) s =
      replay_slot es (handle_event db fetch now_ms e slot s)
      ∙ ap (last_slot es) (handle_event_slot e slot s)

  module _ (parse_logs : List String → List Event) (connection : Connection)
      (find : String → Option Transaction) (lookup : IsLookup connection find) where
    -- For a database that accepts everything and a connection that answers, the recovery returns
    -- and leaves the slot of the last event of the transactions due, in the order of the listing,
    -- as the last slot processed.
    pub backfill_from_slot_cursor :
        (limit : ℕ) (gs : List Signature) (s : Store)
        → connection.get_signatures_for_address limit ≡ some gs
        → let due = unprocessed (start_slot s) gs in
          let es = listed parse_logs (map find (map (λ (g : Signature). g.signature) due)) in
          (s' : Store) × (backfill_from_slot db fetch now_ms parse_logs connection limit s
            ≡ some s')
          × (s'.last_processed_slot ≡ last_slot es s.last_processed_slot)
    backfill_from_slot_cursor limit gs s answered =
        let es =
          listed parse_logs
            (map find (map (λ (g : Signature). g.signature) (unprocessed (start_slot s) gs))) in
        (
          replay db fetch now_ms es s,
          backfill_from_slot-replay db fetch now_ms parse_logs connection find lookup limit gs s
              answered,
          replay_slot es s,
        )
