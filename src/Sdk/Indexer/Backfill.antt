-- ===== src/Sdk/Indexer/Backfill.antt =====
-- `backfill` of sdk/src/indexer.ts. What Anchor's parser reads from the logs of a transaction is
-- the parameter `parse_logs`.
pub mod Laws
mod Tests
use duel_protocol.Prelude.{
  ℕ, ◌+◌, Option, none, some, Bool, List, [], ◌∷◌, ◌++◌, map, String, length, if◌then◌else◌,
}
use duel_protocol.Sdk.Solana.{◌>>=◌}
use duel_protocol.Rpc.{Signature, Transaction, Connection, usable_logs, each_batch}
use duel_protocol.Sdk.Indexer.{DuelEvent, DuelIndexer, process_events}

-- A decoded event under one of the eight names of `mapEvent`, or under another name.
pub data Event : Type 0 where
  known : DuelEvent → Event
  unknown : Event

unfoldable pub map_event : Event → Option DuelEvent
map_event (known e) = some e
map_event unknown = none

module _ (parse_logs : List String → List Event) where
  -- The loop of `parseEvents` over the decoded events.
  mapped_events : List Event → List DuelEvent
  unfolding map_event
  mapped_events [] = []
  mapped_events (event ∷ rest) =
      let mapped = map_event event in
      let events = mapped_events rest in elim mapped [ none ↦ events | some e ↦ e ∷ events ]

  unfoldable pub parse_events : List String → List DuelEvent
  unfolding mapped_events
  parse_events logs = mapped_events (parse_logs logs)

  module _ (clock : ℕ → ℕ) where
    -- One transaction of a batch; `state` is `processed` and the indexer.
    unfoldable pub backfill_tx : Option Transaction → ℕ × DuelIndexer → ℕ × DuelIndexer
    unfolding usable_logs
    backfill_tx tx (processed, ix) = elim (usable_logs tx) [
      | none ↦ (processed, ix)
      | some (slot, logs) ↦
          let events = parse_events logs in
          (processed + length events, process_events clock slot events ix)
    ]

    unfoldable pub backfill_txs : List (Option Transaction) → ℕ × DuelIndexer → ℕ × DuelIndexer
    backfill_txs [] state = state
    backfill_txs (tx ∷ txs) state = backfill_txs txs (backfill_tx tx state)

    module _ (connection : Connection) where
      unfoldable pub backfill_batch : List Signature → ℕ × DuelIndexer → Option (ℕ × DuelIndexer)
      backfill_batch batch state = do
        txs ← connection.get_transactions (map (λ (s : Signature). s.signature) batch)
        some (backfill_txs txs state)

      -- `none` is an error of the connection.
      unfoldable pub backfill : ℕ → DuelIndexer → Option (ℕ × DuelIndexer)
      backfill limit ix = do
        signatures ← connection.get_signatures_for_address limit
        each_batch (length signatures) backfill_batch signatures (0, ix)
