-- ===== src/Sdk/Indexer/Backfill/Laws.antt =====
-- The batches of `backfill` together handle every event that is listed, in the order of the list.
use duel_protocol.Prelude.{
  ℕ, suc, ◌+◌, ◌≡◌, refl, sym, ◌∙◌, ap, Option, none, some, List, [], ◌∷◌, ◌++◌, map, String,
  length, length-append, arith, Option-cases, inl, inr,
}
use duel_protocol.Sdk.Solana.{◌>>=◌}
use duel_protocol.Rpc.{Signature, Transaction, Connection, IsLookup, usable_logs}
use duel_protocol.Rpc.Batches.{IsPass, each_batch-pass}
use duel_protocol.Sdk.Indexer.{DuelEvent, DuelIndexer, process_event, process_events}
use duel_protocol.Sdk.Indexer.Backfill.{
  Event, parse_events, backfill_tx, backfill_txs, backfill_batch, backfill,
}

abbrev at_slot : ℕ → DuelEvent → ℕ × DuelEvent
at_slot slot e = (slot, e)

module _ (parse_logs : List String → List Event) (clock : ℕ → ℕ) where
  -- The events of a transaction, each with its slot: none if it is missing or has failed.
  abbrev pub events_of : Option Transaction → List (ℕ × DuelEvent)
  events_of tx = elim (usable_logs tx) [
    | none ↦ []
    | some (slot, logs) ↦ map (at_slot slot) (parse_events parse_logs logs)
  ]

  -- One event after the other.
  abbrev pub replay : List (ℕ × DuelEvent) → DuelIndexer → DuelIndexer
  replay [] ix = ix
  replay ((slot, e) ∷ es) ix = replay es (process_event clock slot e ix)

  replay-append :
      (es fs : List (ℕ × DuelEvent)) (ix : DuelIndexer)
      → replay (es ++ fs) ix ≡ replay fs (replay es ix)
  replay-append [] fs ix = refl
  replay-append ((slot, e) ∷ es) fs ix = replay-append es fs (process_event clock slot e ix)

  process_events-replay :
      (slot : ℕ) (es : List DuelEvent) (ix : DuelIndexer)
      → process_events clock slot es ix ≡ replay (map (at_slot slot) es) ix
  unfolding process_events
  process_events-replay slot [] ix = refl
  process_events-replay slot (e ∷ es) ix =
      process_events-replay slot es (process_event clock slot e ix)

  length-map : (slot : ℕ) (es : List DuelEvent) → length (map (at_slot slot) es) ≡ length es
  length-map slot [] = refl
  length-map slot (e ∷ es) = ap (λ n. suc n) (length-map slot es)

  abbrev pub replayed : List (ℕ × DuelEvent) → ℕ × DuelIndexer → ℕ × DuelIndexer
  replayed es (n, ix) = (n + length es, replay es ix)

  backfill_tx-replayed :
      (tx : Option Transaction) (state : ℕ × DuelIndexer)
      → backfill_tx parse_logs clock tx state ≡ replayed (events_of tx) state
  unfolding backfill_tx
  backfill_tx-replayed tx (n, ix) = elim (Option-cases (usable_logs tx)) [
    | inl skipped ↦ rw (backfill_tx, events_of, skipped) (ap (λ (k : ℕ). (k, ix)) (omega arith))
    | inr ((slot, logs), read) ↦
        let es = parse_events parse_logs logs in
        rw (backfill_tx, events_of, read, length-map slot es, process_events-replay slot es ix) refl
  ]

  replayed-append :
      (es fs : List (ℕ × DuelEvent)) (state : ℕ × DuelIndexer)
      → replayed fs (replayed es state) ≡ replayed (es ++ fs) state
  replayed-append es fs (n, ix) =
      let size : n + length es + length fs ≡ n + length (es ++ fs) =
        omega (arith, length-append es fs) in
      rw (size, replay-append es fs ix) refl

  abbrev pub listed : List (Option Transaction) → List (ℕ × DuelEvent)
  listed [] = []
  listed (tx ∷ txs) = events_of tx ++ listed txs

  backfill_txs-replayed :
      (txs : List (Option Transaction)) (state : ℕ × DuelIndexer)
      → backfill_txs parse_logs clock txs state ≡ replayed (listed txs) state
  unfolding backfill_txs
  backfill_txs-replayed [] (n, ix) = ap (λ k. (k, ix)) (omega arith)
  backfill_txs-replayed (tx ∷ txs) state =
      backfill_txs-replayed txs (backfill_tx parse_logs clock tx state)
      ∙ ap (replayed (listed txs)) (backfill_tx-replayed tx state)
      ∙ replayed-append (events_of tx) (listed txs) state

  backfill_txs-append :
      (txs us : List (Option Transaction)) (state : ℕ × DuelIndexer)
      → backfill_txs parse_logs clock (txs ++ us) state
        ≡ backfill_txs parse_logs clock us (backfill_txs parse_logs clock txs state)
  unfolding backfill_txs
  backfill_txs-append [] us state = refl
  backfill_txs-append (tx ∷ txs) us state =
      backfill_txs-append txs us (backfill_tx parse_logs clock tx state)

  module _ (connection : Connection) (find : String → Option Transaction)
      (lookup : IsLookup connection find) where
    abbrev transactions : List Signature → List (Option Transaction)
    transactions sigs = map find (map (λ (s : Signature). s.signature) sigs)

    transactions-append :
        (xs ys : List Signature) → transactions (xs ++ ys) ≡ transactions xs ++ transactions ys
    transactions-append [] ys = refl
    transactions-append (x ∷ xs) ys =
        ap (λ rest. find x.signature ∷ rest) (transactions-append xs ys)

    backfill_batch_lem :
        (sigs : List Signature) (state : ℕ × DuelIndexer)
        → backfill_batch parse_logs clock connection sigs state
          ≡ some (backfill_txs parse_logs clock (transactions sigs) state)
    unfolding backfill_batch
    backfill_batch_lem sigs state =
        rw (lookup.found (map (λ (s : Signature). s.signature) sigs)) refl

    batch-IsPass : IsPass (backfill_batch parse_logs clock connection)
    batch-IsPass = record {
      pass_nil = λ s. backfill_batch_lem [] s ∙ unfold backfill_txs in refl;
      pass_append = λ xs ys s.
          backfill_batch_lem (xs ++ ys) s
          ∙ ap some (
              ap (λ txs. backfill_txs parse_logs clock txs s) (transactions-append xs ys)
              ∙ backfill_txs-append (transactions xs) (transactions ys) s)
          ∙ sym (
              ap (λ o. o >>= backfill_batch parse_logs clock connection ys)
                (backfill_batch_lem xs s)
              ∙ backfill_batch_lem ys (backfill_txs parse_logs clock (transactions xs) s));
    }

    -- Where the connection answers and looks up each signature by itself, the backfill in batches
    -- returns the number of the events listed, and the indexer after all of them in the order of
    -- the listing.
    pub backfill-replay :
        (limit : ℕ) (sigs : List Signature) (ix : DuelIndexer)
        → connection.get_signatures_for_address limit ≡ some sigs
        → let es = listed (map find (map (λ (s : Signature). s.signature) sigs)) in
          backfill parse_logs clock connection limit ix ≡ some (length es, replay es ix)
    unfolding backfill
    backfill-replay limit sigs ix answered = rw answered (
        each_batch-pass (backfill_batch parse_logs clock connection) batch-IsPass (length sigs) sigs
          (0, ix) (omega arith)
        ∙ backfill_batch_lem sigs (0, ix)
        ∙ ap some (
            backfill_txs-replayed (transactions sigs) (0, ix)
            ∙ ap (λ (k : ℕ). (k, replay (listed (transactions sigs)) ix)) (omega arith)))
