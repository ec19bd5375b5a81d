-- ===== src/Scripts/SupabaseIndexer/Tests.antt =====
-- Events with the fields of the first version and of the program's today.
use duel_protocol.Prelude.{String, ◌≡◌, refl, Option, none, true, false, [], ◌∷◌}
use duel_protocol.Backend.Db.{str, num, digits}
use duel_protocol.Scripts.SupabaseIndexer.{
  Event, Database, insert_twap_sample, handle_event, handle_events, write_row, write,
}
use duel_protocol.Scripts.SupabaseIndexer.Synced.{Market}
use duel_protocol.Scripts.SupabaseIndexer.Rows.{
  Fields, field, sampled_row, key_of, digits_of, plain_entry,
}
use duel_protocol.Scripts.SupabaseIndexer.Laws.{purchase, handle_events_stale}

abbrev db : Database
db s w = true

abbrev fetch : String → Option Market
fetch market = none

abbrev sampled : Event
sampled = record {
  name = "TwapSampled";
  fields =
      ("market", str "M")
      ∷ ("priceA", digits 3)
      ∷ ("priceB", digits 4)
      ∷ ("sampleCount", num 1)
      ∷ [];
}

abbrev bought : Fields
bought =
    ("market", str "M")
    ∷ ("side", num 0)
    ∷ ("buyer", str "B")
    ∷ ("quoteAmount", digits 500)
    ∷ ("tokensReceived", digits 490)
    ∷ ("feeAmount", digits 5)
    ∷ ("newPrice", digits 2)
    ∷ []

sampled_run :
    (handle_event db fetch 0 sampled 7 []).0
    ≡ insert_twap_sample (
        ("market_pubkey", str "M")
        ∷ ("price_a", digits 3)
        ∷ ("price_b", digits 4)
        ∷ ("sample_count", num 1)
        ∷ ("slot", num 7)
        ∷ [])
      ∷ []
unfolding handle_event write_row write sampled_row key_of digits_of plain_entry field
sampled_run = refl

missing : field "solAmount" bought ≡ none
unfolding field
missing = refl

handle_events_stale_example :
    handle_events db fetch 0
      (sampled ∷ record { name = "TokensBought"; fields = bought } ∷ sampled ∷ [])
      7
      ([], true)
    ≡ ((handle_events db fetch 0 (sampled ∷ []) 7 ([], true)).0, false)
handle_events_stale_example =
    handle_events_stale db fetch 0 (sampled ∷ []) (sampled ∷ [])
      (record { name = "TokensBought"; fields = bought }) 7 [] (purchase bought missing)
