-- ===== src/Backend/Routes/Laws.antt =====
-- The placeholders of the queries stand for the values that the request asks for.
use package.text.Mathlib.Text.{◌==◌ as str_eq}
use duel_protocol.Prelude.{
  ℕ, zero, suc, ◌≡◌, refl, String, Bool-cases, inl, inr, Option, none, some, List, [], ◌∷◌, ◌++◌,
  if◌then◌else◌,
}
use duel_protocol.Sdk.Solana.{◌>>=◌}
use duel_protocol.Backend.Routes.{
  Number, Param, text, number, Select, placeholder, add_filter, add_side, limit_of, offset_of,
  list_markets, list_trades,
}

-- The parameter of a placeholder, from 1 on.
unfoldable pub param_at : List Param → ℕ → Option Param
param_at ps zero = none
param_at [] (suc n) = none
param_at (p ∷ ps) (suc zero) = some p
param_at (p ∷ ps) (suc (suc n)) = param_at ps (suc n)

-- What the conditions ask of each column.
unfoldable pub resolve : List Param → List (String × ℕ) → Option (List (String × Param))
unfolding param_at
resolve ps [] = some []
resolve ps ((column, n) ∷ rest) = do
  value ← param_at ps n
  others ← resolve ps rest
  some ((column, value) ∷ others)

-- The page asks the filters, in the order and at the limit and offset given, and the count asks the
-- same filters.
pub record IsFiltered (filters : List (String × Param)) (limit offset : Number)
    (page count : Select) : Type 0 where
  pub asked : resolve page.params page.conditions ≡ some filters
  pub counted : resolve count.params count.conditions ≡ some filters
  pub limited :
      (n : ℕ) × (page.limit ≡ placeholder n) × (param_at page.params n ≡ some (number limit))
  pub shifted : (n : ℕ) × (page.offset ≡ some n) × (param_at page.params n ≡ some (number offset))

-- The filter of a text, if there is one that is not empty, and of a side.
unfoldable pub text_filter : String → Option String → List (String × Param)
text_filter column none = []
text_filter column (some t) = if str_eq t "" then [] else (column, text t) ∷ []

unfoldable pub side_filter : (String → Number) → Option String → List (String × Param)
side_filter parse_int none = []
side_filter parse_int (some t) = ("side", number (parse_int t)) ∷ []

-- For every request the placeholders of the page of markets stand for the status asked for, the
-- limit and the offset, and those of its count for the same filter.
pub list_markets-IsFiltered :
    (parse_int : String → Number) (status limit offset : Option String)
    → IsFiltered
        (text_filter "status" status)
        (limit_of parse_int limit "50" 200)
        (offset_of parse_int offset)
        (list_markets parse_int status limit offset).0
        (list_markets parse_int status limit offset).1
unfolding list_markets add_filter resolve param_at text_filter
list_markets-IsFiltered parse_int none limit offset = record {
  asked = refl;
  counted = refl;
  limited = (1, refl, refl);
  shifted = (2, refl, refl);
}
list_markets-IsFiltered parse_int (some t) limit offset = elim (Bool-cases (str_eq t "")) [
  | inl empty ↦ rw empty (record {
    asked = refl;
    counted = refl;
    limited = (1, refl, refl);
    shifted = (2, refl, refl);
  })
  | inr given ↦ rw given (record {
    asked = refl;
    counted = refl;
    limited = (2, refl, refl);
    shifted = (3, refl, refl);
  })
]

-- For every request the placeholders of the page of trades stand for the market, the side and the
-- type asked for, the limit and the offset, and those of its count for the same filters.
pub list_trades-IsFiltered :
    (parse_int : String → Number) (market_id : String)
    (side trade_type limit offset : Option String)
    → IsFiltered
        (("market_pubkey", text market_id)
          ∷ (side_filter parse_int side ++ text_filter "trade_type" trade_type))
        (limit_of parse_int limit "50" 200)
        (offset_of parse_int offset)
        (list_trades parse_int market_id side trade_type limit offset).0
        (list_trades parse_int market_id side trade_type limit offset).1
unfolding list_trades add_filter add_side resolve param_at text_filter side_filter
list_trades-IsFiltered parse_int market_id none none limit offset = record {
  asked = refl;
  counted = refl;
  limited = (2, refl, refl);
  shifted = (3, refl, refl);
}
list_trades-IsFiltered parse_int market_id (some s) none limit offset = record {
  asked = refl;
  counted = refl;
  limited = (3, refl, refl);
  shifted = (4, refl, refl);
}
list_trades-IsFiltered parse_int market_id none (some t) limit offset =
    elim (Bool-cases (str_eq t "")) [
      | inl empty ↦ rw empty (record {
        asked = refl;
        counted = refl;
        limited = (2, refl, refl);
        shifted = (3, refl, refl);
      })
      | inr given ↦ rw given (record {
        asked = refl;
        counted = refl;
        limited = (3, refl, refl);
        shifted = (4, refl, refl);
      })
    ]
list_trades-IsFiltered parse_int market_id (some s) (some t) limit offset =
    elim (Bool-cases (str_eq t "")) [
      | inl empty ↦ rw empty (record {
        asked = refl;
        counted = refl;
        limited = (3, refl, refl);
        shifted = (4, refl, refl);
      })
      | inr given ↦ rw given (record {
        asked = refl;
        counted = refl;
        limited = (4, refl, refl);
        shifted = (5, refl, refl);
      })
    ]
