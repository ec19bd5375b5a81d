-- ===== src/Backend/Table/Tests.antt =====
-- A market that is resolved and closed, recovered from scratch: the listing ends at its creation.
use text.Mathlib.Text.{◌==◌ as str_eq}
use duel_protocol.Prelude.{
  ℕ, ◌≡◌, refl, String, Bool, true, false, Option, none, some, List, [], ◌∷◌, map, if◌then◌else◌,
  if_intro,
}
use duel_protocol.Rpc.{Signature, Transaction, Connection, IsLookup, usable_logs}
use duel_protocol.Backend.Db.{Value, str, Statement}
use duel_protocol.Backend.Ingest.{Store, Database, unprocessed, backfill_from_slot}
use duel_protocol.Backend.Ingest.Rows.{
  Event, Created, Resolved, market_created, market_resolved, Fetched,
}
use duel_protocol.Backend.Table.{inserted, set_to, Markets, IsUpserting, contents, Decides}
use duel_protocol.Backend.Table.Laws.{backfill_from_slot_status}

abbrev or_else : Option Value → Value → Value
or_else none v = v
or_else (some w) v = w

-- A row that is new has the default status unless one is inserted.
abbrev upsert_status : Statement → Option Value → Option Value
upsert_status q none = some (or_else (inserted "status" q) (str "active"))
upsert_status q (some old) = some (or_else (set_to "status" q) old)

abbrev at_key : Option Value → Statement → (String → Option Value) → String → Option Value
at_key (some (str key)) q t p = if str_eq key p then upsert_status q (t p) else t p
at_key _ q t p = t p

abbrev markets : Markets
markets = record {
  Table = String → Option Value;
  run = λ q t p. if str_eq q.table "markets" then at_key (inserted "pubkey" q) q t p else t p;
  status = λ t p. t p;
}

upsert_status_lem :
    (q : Statement) (v : Value) (o : Option Value)
    → inserted "status" q ≡ some v
    → set_to "status" q ≡ some v
    → upsert_status q o ≡ some v
upsert_status_lem q v none valued updated = rw valued refl
upsert_status_lem q v (some old) valued updated = rw updated refl

markets-IsUpserting : IsUpserting markets
markets-IsUpserting = record {
  elsewhere = λ q t p away. rw away refl;
  other_row = λ q t key p keyed away.
      if_intro (λ (o : Option Value). o ≡ t p) (str_eq q.table "markets") (rw (keyed, away) refl)
        refl;
  own_row = λ q t key p v on_markets keyed valued updated own.
      rw (on_markets, keyed, own) (upsert_status_lem q v (t p) valued updated);
}

abbrev creation : Created
creation = record {
  market = "M";
  authority = "A";
  deadline = 2000;
  market_id = none;
  quote_mint = none;
}

abbrev resolution : Resolved
resolution = record {
  market = "M";
  winner = 0;
  final_twap_a = 7;
  final_twap_b = 6;
  loser_reserve_transferred = none;
  dex_pool = none;
  sol_seeded = none;
  tokens_seeded = none;
}

abbrev parse_log : String → Event
parse_log log = if str_eq log "new" then market_resolved resolution else market_created creation

abbrev parse_logs : List String → List Event
parse_logs logs = map parse_log logs

abbrev transaction : ℕ → String → Transaction
transaction slot' log = record {
  slot = slot';
  meta = some (record { err = false; log_messages = some (log ∷ []) });
}

abbrev find : String → Option Transaction
find signature' = some (transaction (if str_eq signature' "new" then 9 else 5) signature')

abbrev signatures : List Signature
signatures = record { signature = "new"; slot = 9 } ∷ record { signature = "old"; slot = 5 } ∷ []

abbrev connection : Connection
connection = record {
  get_signatures_for_address = λ limit. some signatures;
  get_transactions = λ s. some (map find s);
}

connection-IsLookup : IsLookup connection find
connection-IsLookup = record { found = λ s. refl }

abbrev open_db : Database
open_db = record { accepts = λ past q. true; accepts_slot = λ past slot. true }

abbrev accepts_all : Statement → Bool
accepts_all q = true

open_db-Decides : Decides open_db accepts_all
open_db-Decides = record { decided = λ past q on_markets. refl }

abbrev closed : String → Option Fetched
closed market = none

abbrev empty : Store
empty = record { statements = []; last_processed_slot = none }

abbrev no_rows : String → Option Value
no_rows p = none

backfill_from_slot_status_example :
    (s' : Store) × (backfill_from_slot open_db closed 1000 parse_logs connection 1000 empty
      ≡ some s')
    × (contents markets s'.statements no_rows "M" ≡ some (str "active"))
unfolding unprocessed usable_logs
backfill_from_slot_status_example =
    backfill_from_slot_status markets markets-IsUpserting no_rows "M" open_db accepts_all
      open_db-Decides closed 1000 parse_logs connection find connection-IsLookup 1000 signatures
      empty refl
