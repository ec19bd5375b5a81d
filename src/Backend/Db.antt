-- ===== src/Backend/Db.antt =====
-- The statements of backend/src/db.ts, up to their text: which columns and placeholders they name,
-- and the values that go with them. The pool that runs them is the pg library's.
pub mod Laws
mod Tests
use text.Mathlib.Text.{◌==◌ as str_eq}
use duel_protocol.Prelude.{
  ℕ, zero, suc, ◌+◌, String, Bool, Option, none, some, List, [], ◌∷◌, map, ◌==◌, if◌then◌else◌,
}

-- A parameter of a query: a text, a number, the digits of a number as a text, or null.
pub data Value : Type 0 where
  str : String → Value
  num : ℕ → Value
  digits : ℕ → Value
  null : Value

-- An object's entries in order, as `Object.keys` and `Object.values` list them.
abbrev pub Row : Type 0
Row = List (String × Value)

abbrev pub keys : Row → List String
keys data' = map (λ entry. entry.0) data'

abbrev pub values : Row → List Value
values data' = map (λ entry. entry.1) data'

-- `keys.indexOf(k) + 1`
unfoldable pub position : String → List String → ℕ
position k [] = 0
position k (x ∷ xs) =
    let later = position k xs in if str_eq x k then 1 else if later == 0 then 0 else later + 1

-- `keys.map((_, i) => $(i + 1))`, from the `n`th on.
unfoldable pub placeholders_from : ℕ → List String → List ℕ
placeholders_from n [] = []
placeholders_from n (k ∷ ks) = n ∷ placeholders_from (n + 1) ks

-- The clauses `k = $n` for the keys from `ks` but `pubkey`.
unfoldable pub set_clauses : List String → List String → List (String × ℕ)
set_clauses all [] = []
set_clauses all (k ∷ ks) =
    let rest = set_clauses all ks in if str_eq k "pubkey" then rest else (k, position k all) ∷ rest

-- `INSERT INTO table (columns) VALUES (placeholders)`, for markets with
-- `ON CONFLICT (pubkey) DO UPDATE SET`.
pub record Statement : Type 0 where
  pub table : String
  pub columns : List String
  pub placeholders : List ℕ
  pub sets : List (String × ℕ)
  pub parameters : List Value

abbrev insert : String → Row → Statement
insert table' data' = record {
  table = table';
  columns = keys data';
  placeholders = placeholders_from 1 (keys data');
  sets = [];
  parameters = values data';
}

unfoldable pub upsert_market : Row → Statement
upsert_market data' = record (insert "markets" data') {
  sets = set_clauses (keys data') (keys data');
}

unfoldable pub insert_trade : Row → Statement
insert_trade data' = insert "trades" data'

unfoldable pub insert_twap_sample : Row → Statement
insert_twap_sample data' = insert "twap_samples" data'
