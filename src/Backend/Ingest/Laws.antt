-- ===== src/Backend/Ingest/Laws.antt =====
-- The recovery handles every listed event in the order of the list, which ends at the oldest.
use duel_protocol.Prelude.{
  ℕ, ◌≡◌, refl, sym, ◌∙◌, ap, Option, none, some, Bool, true, false, List, [], ◌∷◌, ◌++◌, map,
  String, length, arith, Option-cases, inl, inr,
}
use duel_protocol.Sdk.Solana.{◌>>=◌}
use duel_protocol.Rpc.{Signature, Transaction, Connection, IsLookup, usable_logs}
use duel_protocol.Rpc.Batches.{IsPass, each_batch-pass}
use duel_protocol.Backend.Ingest.Rows.{Event, Fetched}
use duel_protocol.Backend.Ingest.{
  Store, Database, handle_event, handle_events, ingest_tx, ingest_txs, ingest_batch, unprocessed,
  start_slot, backfill_from_slot,
}

abbrev at_slot : ℕ → Event → ℕ × Event
at_slot slot e = (slot, e)

module _ (parse_logs : List String → List Event) where
  -- The events of a transaction, each with its slot: none if it is missing or has failed.
  abbrev pub events_of : Option Transaction → List (ℕ × Event)
  events_of tx = elim (usable_logs tx) [
    | none ↦ []
    | some (slot, logs) ↦ map (at_slot slot) (parse_logs logs)
  ]

  abbrev pub listed : List (Option Transaction) → List (ℕ × Event)
  listed [] = []
  listed (tx ∷ txs) = events_of tx ++ listed txs

module _ (db : Database) (fetch : String → Option Fetched) (now_ms : ℕ) where
  -- One event after the other.
  abbrev pub replay : List (ℕ × Event) → Store → Store
  replay [] s = s
  replay ((slot, e) ∷ es) s = replay es (handle_event db fetch now_ms e slot s)

  replay-append :
      (es fs : List (ℕ × Event)) (s : Store) → replay fs (replay es s) ≡ replay (es ++ fs) s
  replay-append [] fs s = refl
  replay-append ((slot, e) ∷ es) fs s = replay-append es fs (handle_event db fetch now_ms e slot s)

  handle_events-replay :
      (slot : ℕ) (es : List Event) (s : Store)
      → handle_events db fetch now_ms es slot s ≡ replay (map (at_slot slot) es) s
  unfolding handle_events
  handle_events-replay slot [] s = refl
  handle_events-replay slot (e ∷ es) s =
      handle_events-replay slot es (handle_event db fetch now_ms e slot s)

  module _ (parse_logs : List String → List Event) where
    module _ (connection : Connection) where
      ingest_tx-replay :
          (tx : Option Transaction) (s : Store)
          → ingest_tx db fetch now_ms parse_logs connection tx s
            ≡ replay (events_of parse_logs tx) s
      unfolding ingest_tx
      ingest_tx-replay tx s = elim (Option-cases (usable_logs tx)) [
        | inl skipped ↦ rw (ingest_tx, events_of, skipped) refl
        | inr ((slot, logs), read) ↦
            rw (ingest_tx, events_of, read) (handle_events-replay slot (parse_logs logs) s)
      ]

      ingest_txs-replay :
          (txs : List (Option Transaction)) (s : Store)
          → ingest_txs db fetch now_ms parse_logs connection txs s
            ≡ replay (listed parse_logs txs) s
      unfolding ingest_txs
      ingest_txs-replay [] s = refl
      ingest_txs-replay (tx ∷ txs) s =
          ingest_txs-replay txs (ingest_tx db fetch now_ms parse_logs connection tx s)
          ∙ ap (replay (listed parse_logs txs)) (ingest_tx-replay tx s)
          ∙ replay-append (events_of parse_logs tx) (listed parse_logs txs) s

      module _ (find : String → Option Transaction) (lookup : IsLookup connection find) where
        abbrev transactions : List Signature → List (Option Transaction)
        transactions gs = map find (map (λ (g : Signature). g.signature) gs)

        listed-append :
            (xs ys : List Signature)
            → (s : Store)
            → replay (listed parse_logs (transactions (xs ++ ys))) s
              ≡ replay
                  (listed parse_logs (transactions ys))
                  (replay (listed parse_logs (transactions xs)) s)
        listed-append [] ys s = refl
        listed-append (x ∷ xs) ys s =
            let here = events_of parse_logs (find x.signature) in
            sym (replay-append here (listed parse_logs (transactions (xs ++ ys))) s)
            ∙ listed-append xs ys (replay here s)
            ∙ ap (replay (listed parse_logs (transactions ys)))
                (replay-append here (listed parse_logs (transactions xs)) s)

        ingest_batch_lem :
            (gs : List Signature) (s : Store)
            → ingest_batch db fetch now_ms parse_logs connection gs (s, true)
              ≡ some (replay (listed parse_logs (transactions gs)) s, true)
        unfolding ingest_batch
        ingest_batch_lem gs s =
            rw (ingest_batch, lookup.found (map (λ (g : Signature). g.signature) gs))
              (ap (λ (done : Store). some (done, true)) (ingest_txs-replay (transactions gs) s))

        batch_nil :
            (p : Store × Bool) → ingest_batch db fetch now_ms parse_logs connection [] p ≡ some p
        unfolding ingest_batch
        batch_nil (s, false) = refl
        batch_nil (s, true) = ingest_batch_lem [] s

        batch_append :
            (xs ys : List Signature) (p : Store × Bool)
            → ingest_batch db fetch now_ms parse_logs connection (xs ++ ys) p
              ≡ ingest_batch db fetch now_ms parse_logs connection xs p
                >>= ingest_batch db fetch now_ms parse_logs connection ys
        unfolding ingest_batch
        batch_append xs ys (s, false) = refl
        batch_append xs ys (s, true) =
            ingest_batch_lem (xs ++ ys) s
            ∙ ap (λ (done : Store). some (done, true)) (listed-append xs ys s)
            ∙ sym (
                ap (λ o. o >>= ingest_batch db fetch now_ms parse_logs connection ys)
                  (ingest_batch_lem xs s)
                ∙ ingest_batch_lem ys (replay (listed parse_logs (transactions xs)) s))

        batch-IsPass : IsPass (ingest_batch db fetch now_ms parse_logs connection)
        batch-IsPass = record { pass_nil = batch_nil; pass_append = batch_append }

        -- Where the connection answers and looks up each signature by itself, the recovery in
        -- batches handles every event of the transactions due, one after the other in the order of
        -- the listing.
        pub backfill_from_slot-replay :
            (limit : ℕ) (gs : List Signature) (s : Store)
            → connection.get_signatures_for_address limit ≡ some gs
            → let due = unprocessed (start_slot s) gs in
              backfill_from_slot db fetch now_ms parse_logs connection limit s
              ≡ some (
                  replay
                    (listed parse_logs (map find (map (λ (g : Signature). g.signature) due)))
                    s)
        unfolding backfill_from_slot
        backfill_from_slot-replay limit gs s answered =
            let due = unprocessed (start_slot s) gs in
            let looped =
              each_batch-pass (ingest_batch db fetch now_ms parse_logs connection) batch-IsPass
                (length due) due (s, true) (omega arith)
              ∙ ingest_batch_lem due s in
            rw (backfill_from_slot, answered)
              (ap (λ o. o >>= (λ (done : Store × Bool). some done.0)) looped)
