-- ===== src/Backend/Live/Tests.antt =====
-- Two purchases heard one after the other, whose handlers interleave.
use text.Mathlib.Text.{◌==◌ as str_eq}
use duel_protocol.Prelude.{
  ℕ, ◌+◌, ◌≤◌, ◌≡◌, refl, String, true, false, none, some, List, [], ◌∷◌, map, sum_by, length,
  if◌then◌else◌,
}
use duel_protocol.Rpc.{Signature}
use duel_protocol.Backend.Db.{Value, Statement, upsert_market, insert_trade}
use duel_protocol.Backend.Ingest.{Database, query, set_slot, unprocessed, start_slot, after_slot}
use duel_protocol.Backend.Ingest.Cursor.{IsOpen}
use duel_protocol.Backend.Ingest.Rows.{Event, Traded, tokens_bought, trade_row}
use duel_protocol.Backend.Live.{writing, storing, Live, begin, on_logs, resume, answered}
use duel_protocol.Backend.Live.Steps.{Hears, starts, hears, answers}
use duel_protocol.Backend.Live.Laws.{each_heard_once, none_heard_twice, heard_by}

abbrev accepting : Database
accepting = record { accepts = λ past q. true; accepts_slot = λ past slot. true }

accepting-IsOpen : IsOpen accepting
accepting-IsOpen = record { all_accepted = λ past q. refl; slots_accepted = λ past slot. refl }

abbrev bought : Traded
bought = record {
  market = "M";
  side = 0;
  trader = "T";
  quote = 100;
  tokens = 50;
  new_price = 3;
  fee_amount = none;
}

abbrev purchases : List String → List Event
purchases logs = map (λ log. tokens_bought bought) logs

abbrev blank : Live
blank = record { store = record { statements = []; last_processed_slot = none }; tasks = [] }

abbrev row : ℕ → Statement
row slot = insert_trade (trade_row bought "buy" slot)

-- The listener after the logs of slot 5 and of slot 6, and their four answers, those of slot 6 first.
abbrev first_heard : Live
first_heard = on_logs purchases false ("a" ∷ []) 5 blank

abbrev both_heard : Live
both_heard = on_logs purchases false ("b" ∷ []) 6 first_heard

abbrev late_written : Live
late_written =
    answered accepting 0 none (writing (row 5) 5 ∷ []) (writing (row 6) 6) [] both_heard.store

abbrev late_stored : Live
late_stored = answered accepting 0 none (writing (row 5) 5 ∷ []) (storing 6) [] late_written.store

abbrev early_written : Live
early_written = answered accepting 0 none [] (writing (row 5) 5) [] late_stored.store

abbrev early_stored : Live
early_stored = answered accepting 0 none [] (storing 5) [] early_written.store

late_run :
    Hears accepting purchases blank
      ((5, tokens_bought bought) ∷ (6, tokens_bought bought) ∷ [])
      late_stored
unfolding on_logs begin answered resume query set_slot
late_run =
    answers blank late_written _ 0 none (writing (row 5) 5 ∷ []) (storing 6) []
      (answers blank both_heard _ 0 none (writing (row 5) 5 ∷ []) (writing (row 6) 6) []
        (hears blank first_heard _ false ("b" ∷ []) 6
          (hears blank blank [] false ("a" ∷ []) 5 (starts blank)))
        refl)
      refl

whole_run :
    Hears accepting purchases blank
      ((5, tokens_bought bought) ∷ (6, tokens_bought bought) ∷ [])
      early_stored
unfolding on_logs begin answered resume query set_slot
whole_run =
    answers blank early_written _ 0 none [] (storing 5) []
      (answers blank late_stored _ 0 none [] (writing (row 5) 5) [] late_run refl) refl

-- Where the process ends after `late_run`, the purchase of slot 5 is not written, and the recovery
-- passes it over.
abbrev signature_5 : Signature
signature_5 = record { signature = "early"; slot = 5 }

purchase_lost :
    (length late_stored.store.statements ≡ 1)
    × (unprocessed (start_slot late_stored.store) (signature_5 ∷ []) ≡ [])
unfolding on_logs begin answered resume query set_slot unprocessed after_slot
purchase_lost = (refl, refl)

-- After both, the recovery starts at the earlier slot.
slot_falls : early_stored.store.last_processed_slot ≡ some 5
unfolding on_logs begin answered resume query set_slot
slot_falls = refl

abbrev is_trade : Statement → ℕ
is_trade q = if str_eq q.table "trades" then 1 else 0

is_trade_silent : (fields : List (String × Value)) → is_trade (upsert_market fields) ≡ 0
unfolding upsert_market
is_trade_silent fields = refl

each_heard_once_example :
    sum_by is_trade early_stored.store.statements
    ≡ 0
      + heard_by is_trade is_trade_silent
          ((5, tokens_bought bought) ∷ (6, tokens_bought bought) ∷ [])
unfolding on_logs begin answered resume query set_slot
each_heard_once_example =
    each_heard_once is_trade is_trade_silent accepting accepting-IsOpen purchases blank early_stored
      _ refl refl whole_run

none_heard_twice_example :
    sum_by is_trade late_stored.store.statements
    ≤ 0
      + heard_by is_trade is_trade_silent
          ((5, tokens_bought bought) ∷ (6, tokens_bought bought) ∷ [])
none_heard_twice_example =
    none_heard_twice is_trade is_trade_silent accepting purchases blank late_stored _ refl late_run
