-- ===== src/Backend/Ingest/Tests.antt =====
-- The recovery on two listed trades, the newer one first.
use text.Mathlib.Text.{◌==◌ as str_eq}
use duel_protocol.Prelude.{
  ℕ, ◌≡◌, refl, String, true, false, Option, none, some, List, [], ◌∷◌, map, length, if◌then◌else◌,
}
use duel_protocol.Rpc.{Signature, Transaction, Connection, IsLookup, usable_logs, each_batch}
use duel_protocol.Backend.Db.{upsert_market, insert_trade}
use duel_protocol.Backend.Ingest.Rows.{
  Event, Created, Resolved, Traded, tokens_bought, market_resolved, Fetched, created_row,
}
use duel_protocol.Backend.Ingest.{
  Store, Database, backfill_from_slot, handle_event, unprocessed, ingest_batch, ingest_txs,
  ingest_tx, handle_events, after_slot,
}
use duel_protocol.Backend.Ingest.Laws.{replay, listed, backfill_from_slot-replay}
use duel_protocol.Backend.Ingest.Cursor.{IsOpen, backfill_from_slot_cursor}
use duel_protocol.Backend.Ingest.Reserves.{ActiveMarket, SideReserves}
use duel_protocol.Backend.Ingest.Refusals.{names, ChecksNotNull, handle_event_refused}

abbrev open_db : Database
open_db = record { accepts = λ past q. true; accepts_slot = λ past slot. true }

open_db-IsOpen : IsOpen open_db
open_db-IsOpen = record { all_accepted = λ past q. refl; slots_accepted = λ past slot. refl }

abbrev strict_db : Database
strict_db = record {
  accepts = λ past q. if str_eq q.table "markets" then names "authority" q.columns else true;
  accepts_slot = λ past slot. true;
}

strict_db-ChecksNotNull : ChecksNotNull strict_db
strict_db-ChecksNotNull = record {
  refused = λ past q on_markets lacking. rw (on_markets, lacking) refl;
}

abbrev unreachable : String → Option Fetched
unreachable market = none

abbrev trade : Traded
trade = record {
  market = "M";
  side = 0;
  trader = "T";
  quote = 100;
  tokens = 50;
  new_price = 3;
  fee_amount = none;
}

abbrev parse_logs : List String → List Event
parse_logs logs = map (λ log. tokens_bought trade) logs

abbrev find : String → Option Transaction
find signature' =
    if str_eq signature' "new"
    then some
        (record { slot = 9; meta = some (record { err = false; log_messages = some ("a" ∷ []) }) })
    else some
        (record { slot = 5; meta = some (record { err = false; log_messages = some ("b" ∷ []) }) })

abbrev signatures : List Signature
signatures = record { signature = "new"; slot = 9 } ∷ record { signature = "old"; slot = 5 } ∷ []

abbrev connection : Connection
connection = record {
  get_signatures_for_address = λ limit. some signatures;
  get_transactions = λ s. some (map find s);
}

connection-IsLookup : IsLookup connection find
connection-IsLookup = record { found = λ s. refl }

abbrev empty : Store
empty = record { statements = []; last_processed_slot = some 0 }

abbrev recovered : Option Store
recovered = backfill_from_slot open_db unreachable 1000 parse_logs connection 1000 empty

backfill_from_slot-replay_example :
    recovered
    ≡ some
        (replay open_db unreachable 1000 (listed parse_logs (map find ("new" ∷ "old" ∷ []))) empty)
unfolding unprocessed
backfill_from_slot-replay_example =
    backfill_from_slot-replay open_db unreachable 1000 parse_logs connection find
      connection-IsLookup 1000 signatures empty refl

backfill_from_slot_cursor_example :
    (s' : Store) × (recovered ≡ some s') × (s'.last_processed_slot ≡ some 5)
unfolding unprocessed usable_logs
backfill_from_slot_cursor_example =
    backfill_from_slot_cursor open_db open_db-IsOpen unreachable 1000 parse_logs connection find
      connection-IsLookup 1000 signatures empty refl

abbrev rows_of : Option Store → Option ℕ
rows_of none = none
rows_of (some s) = some (length s.statements)

abbrev again : Option Store → Option Store
again none = none
again (some s) = backfill_from_slot open_db unreachable 1000 parse_logs connection 1000 s

-- A restart inserts the newer trade once more.
restart_run : (rows_of recovered ≡ some 2) × (rows_of (again recovered) ≡ some 3)
unfolding backfill_from_slot unprocessed after_slot usable_logs each_batch ingest_batch ingest_txs
    ingest_tx handle_events handle_event insert_trade
restart_run = (refl, refl)

abbrev resolution : Resolved
resolution = record {
  market = "M";
  winner = 0;
  final_twap_a = 7;
  final_twap_b = 6;
  loser_reserve_transferred = none;
  dex_pool = none;
  sol_seeded = none;
  tokens_seeded = none;
}

abbrev creation : Created
creation = record {
  market = "M";
  authority = "A";
  deadline = 2000;
  market_id = none;
  quote_mint = none;
}

handle_event_refused_example :
    (handle_event strict_db unreachable 1000 (market_resolved resolution) 9 empty ≡ empty)
    × (names "authority" (upsert_market (created_row creation)).columns ≡ true)
handle_event_refused_example =
    handle_event_refused strict_db strict_db-ChecksNotNull unreachable 1000 resolution creation 9
      empty

abbrev active : ActiveMarket
active = record { pubkey = "M"; side_a_pubkey = some "A"; side_b_pubkey = some "B" }

abbrev balances : String → String → Option SideReserves
balances a b =
    some (record { reserve_a = 10; reserve_b = 20; circulating_a = 3; circulating_b = 4 })
