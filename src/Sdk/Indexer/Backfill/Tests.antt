-- ===== src/Sdk/Indexer/Backfill/Tests.antt =====
-- A backfill of three transactions, one of which failed.
use duel_protocol.Prelude.{
  ℕ, ◌+◌, ◌≡◌, refl, true, false, Option, none, some, String, List, [], ◌∷◌, map, if◌then◌else◌,
}
use text.Mathlib.Text.{◌==◌ as str_eq}
use duel_protocol.Rpc.{usable_logs, Signature, Transaction, Connection, IsLookup}
use duel_protocol.Sdk.Indexer.{market_created, twap_sampled, new_indexer}
use duel_protocol.Sdk.Indexer.Backfill.{Event, known, unknown, backfill, parse_events, map_event}
use duel_protocol.Sdk.Indexer.Backfill.Laws.{listed, replay, backfill-replay}

abbrev parse_logs : List String → List Event
parse_logs [] = []
parse_logs (log ∷ logs) = known (market_created 1 8 5000) ∷ unknown ∷ known (twap_sampled 1) ∷ []

abbrev clock : ℕ → ℕ
clock n = 1000 + n

abbrev find : String → Option Transaction
find signature' =
    if str_eq signature' "done"
    then some (record {
      slot = 9;
      meta = some (record { err = false; log_messages = some ("log" ∷ []) });
    })
    else if str_eq signature' "failed"
    then some (record { slot = 8; meta = some (record { err = true; log_messages = none }) })
    else none

abbrev signatures : List Signature
signatures =
    record { signature = "done"; slot = 9 }
    ∷ record { signature = "failed"; slot = 8 }
    ∷ record { signature = "lost"; slot = 7 }
    ∷ []

abbrev connection : Connection
connection = record {
  get_signatures_for_address = λ limit. some signatures;
  get_transactions = λ s. some (map find s);
}

connection-IsLookup : IsLookup connection find
connection-IsLookup = record { found = λ s. refl }

parsed_run : parse_events parse_logs ("log" ∷ []) ≡ market_created 1 8 5000 ∷ twap_sampled 1 ∷ []
unfolding parse_events map_event
parsed_run = refl

backfill-replay_example :
    backfill parse_logs clock connection 1000 new_indexer
    ≡ some (
      2,
      replay parse_logs clock
          (listed parse_logs clock (map find ("done" ∷ "failed" ∷ "lost" ∷ [])))
          new_indexer,
    )
unfolding parse_events map_event usable_logs
backfill-replay_example =
    backfill-replay parse_logs clock connection find connection-IsLookup 1000 signatures new_indexer
      refl
