-- ===== src/Backend/Routes/Tests.antt =====
-- The queries of example requests.
use package.text.Mathlib.Text.{◌==◌ as str_eq}
use duel_protocol.Prelude.{
  if◌then◌else◌, ℕ, String, ◌≡◌, refl, Option, none, some, List, [], ◌∷◌, ◌++◌,
}
use duel_protocol.Prelude.Int.{pos, negsuc}
use duel_protocol.Backend.Routes.{
  Number, text, Select, not_found, list_trades, limit_of, offset_of, or_default, min_number,
  get_market,
}
use duel_protocol.Backend.Routes.Laws.{IsFiltered, text_filter, side_filter, list_trades-IsFiltered}

abbrev parse_int : String → Number
parse_int t =
    if str_eq t "0"
    then some (pos 0)
    else if str_eq t "50"
    then some (pos 50)
    else if str_eq t "900"
    then some (pos 900)
    else if str_eq t "-5"
    then some (negsuc 4)
    else none

capped : limit_of parse_int (some "900") "50" 200 ≡ some (pos 200)
unfolding limit_of or_default min_number
capped = refl

-- A negative limit and one that is no number pass.
unchecked :
    (limit_of parse_int (some "-5") "50" 200 ≡ some (negsuc 4))
    × (limit_of parse_int (some "x") "50" 200 ≡ none)
unfolding limit_of or_default min_number
unchecked = (refl, refl)

abbrev no_rows : Select → Option (List ℕ)
no_rows q = some []

missing : get_market no_rows "m" ≡ some not_found
unfolding get_market
missing = refl

abbrev active_status : Option String
active_status = some "active"

abbrev market_id : String
market_id = "9xQe"

list_trades-IsFiltered_example :
    IsFiltered
      (("market_pubkey", text market_id)
        ∷ (side_filter parse_int (some "0") ++ text_filter "trade_type" (some "buy")))
      (limit_of parse_int none "50" 200)
      (offset_of parse_int none)
      (list_trades parse_int market_id (some "0") (some "buy") none none).0
      (list_trades parse_int market_id (some "0") (some "buy") none none).1
list_trades-IsFiltered_example =
    list_trades-IsFiltered parse_int market_id (some "0") (some "buy") none none
