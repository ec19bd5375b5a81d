-- ===== src/Backend/Routes.antt =====
-- The routes of markets and trades, backend/src/routes/markets.ts and trades.ts: the queries that
-- they send, up to their text, and their answers. The database is a parameter.
pub mod Laws
mod Tests
use package.text.Mathlib.Text.{◌==◌ as str_eq}
use duel_protocol.Prelude.{
  ℕ, zero, suc, ◌+◌, ◌-◌, String, Bool, Option, none, some, List, [], ◌∷◌, ◌++◌, length, take, leb,
  if◌then◌else◌,
}
use duel_protocol.Prelude.Int.{ℤ, pos, negsuc}
use duel_protocol.Sdk.Solana.{◌>>=◌}

-- A number as `parseInt` gives it: `none` is NaN.
abbrev pub Number : Type 0
Number = Option ℤ

-- A parameter of a query.
pub data Param : Type 0 where
  text : String → Param
  number : Number → Param

-- `SELECT * FROM table WHERE conditions ORDER BY created_at DESC LIMIT .. OFFSET ..`, where the
-- conditions name a column and a placeholder, or a text in place of one, and the limit is a
-- placeholder or a literal.
pub data Limit : Type 0 where
  unlimited : Limit
  literal : ℕ → Limit
  placeholder : ℕ → Limit

pub record Select : Type 0 where
  pub table : String
  pub conditions : List (String × ℕ)
  pub literals : List (String × String)
  pub limit : Limit
  pub offset : Option ℕ
  pub params : List Param

-- `q || default`: an empty text counts as missing.
unfoldable pub or_default : Option String → String → String
or_default none d = d
or_default (some t) d = if str_eq t "" then d else t

-- `Math.min(n, cap)`
unfoldable pub min_number : Number → ℕ → Number
min_number none cap = none
min_number (some (pos n)) cap = some (pos (if leb n cap then n else cap))
min_number (some (negsuc n)) cap = some (negsuc n)

-- A filter that is a text and not empty adds a parameter and a condition on it.
unfoldable pub add_filter :
    String → Option String → List Param × List (String × ℕ) → List Param × List (String × ℕ)
add_filter column none where' = where'
add_filter column (some t) (params, conditions) =
    if str_eq t ""
    then (params, conditions)
    else (params ++ text t ∷ [], conditions ++ (column, length params + 1) ∷ [])

-- `side !== undefined`
unfoldable pub add_side :
    (String → Number)
    → Option String
    → List Param × List (String × ℕ)
    → List Param × List (String × ℕ)
add_side parse_int none where' = where'
add_side parse_int (some t) (params, conditions) =
    (params ++ number (parse_int t) ∷ [], conditions ++ ("side", length params + 1) ∷ [])

module _ (parse_int : String → Number) where
  unfoldable pub limit_of : Option String → String → ℕ → Number
  unfolding or_default min_number
  limit_of q default cap = min_number (parse_int (or_default q default)) cap

  unfoldable pub offset_of : Option String → Number
  unfolding or_default
  offset_of q = parse_int (or_default q "0")

  -- The page and the count of `GET /api/markets`.
  unfoldable pub list_markets : Option String → Option String → Option String → Select × Select
  unfolding limit_of offset_of add_filter
  list_markets status limit offset =
      let (params, conditions) = add_filter "status" status ([], []) in
      let all = params ++ number (limit_of limit "50" 200) ∷ number (offset_of offset) ∷ [] in
      (
        record {
          table = "markets";
          conditions = conditions;
          literals = [];
          limit = placeholder (length all - 1);
          offset = some (length all);
          params = all;
        },
        record {
          table = "markets";
          conditions = conditions;
          literals = [];
          limit = unlimited;
          offset = none;
          params = params;
        },
      )

  -- Those of `GET /api/trades/:marketId`; the count has the parameters but the last two.
  unfoldable pub list_trades :
      String → Option String → Option String → Option String → Option String → Select × Select
  unfolding limit_of offset_of add_filter add_side
  list_trades market_id side trade_type limit offset =
      let start : List Param × List (String × ℕ) =
        (text market_id ∷ [], ("market_pubkey", 1) ∷ []) in
      let (params, conditions) =
        add_filter "trade_type" trade_type (add_side parse_int side start) in
      let all = params ++ number (limit_of limit "50" 200) ∷ number (offset_of offset) ∷ [] in
      (
        record {
          table = "trades";
          conditions = conditions;
          literals = [];
          limit = placeholder (length all - 1);
          offset = some (length all);
          params = all;
        },
        record {
          table = "trades";
          conditions = conditions;
          literals = [];
          limit = unlimited;
          offset = none;
          params = take (length all - 2) all;
        },
      )

  -- `GET /api/trades/trader/:address`
  unfoldable pub list_trader : String → Option String → Option String → Select
  unfolding limit_of offset_of
  list_trader address limit offset = record {
    table = "trades";
    conditions = ("trader", 1) ∷ [];
    literals = [];
    limit = placeholder 2;
    offset = some 3;
    params = text address ∷ number (limit_of limit "50" 200) ∷ number (offset_of offset) ∷ [];
  }

  -- `GET /api/trades/twap/:marketId`
  unfoldable pub list_twap : String → Option String → Select
  unfolding limit_of
  list_twap market_id limit = record {
    table = "twap_samples";
    conditions = ("market_pubkey", 1) ∷ [];
    literals = [];
    limit = placeholder 2;
    offset = none;
    params = text market_id ∷ number (limit_of limit "100" 500) ∷ [];
  }

-- A query on a market's key, cut to a number of rows.
abbrev of_market : String → String → Limit → String → Select
of_market table' column limit' id = record {
  table = table';
  conditions = (column, 1) ∷ [];
  literals = [];
  limit = limit';
  offset = none;
  params = text id ∷ [];
}

-- The answers of `GET /api/markets/:id`.
pub data Detail {ℓ} (R : Type ℓ) : Type ℓ where
  not_found : Detail R
  found : R → List R → List R → Detail R

-- What `run` answers to a query; `none` is a query that fails, which ends the request.
unfoldable pub get_market {ℓ} :
    {R : Type ℓ} → (Select → Option (List R)) → String → Option (Detail R)
get_market {R = R} run id = do
  result ← run (of_market "markets" "pubkey" unlimited id)
  elim result as (λ rows. Option (Detail R)) [
    | [] ↦ some not_found
    | market ∷ more ↦ do
      trades ← run (of_market "trades" "market_pubkey" (literal 20) id)
      twap ← run (of_market "twap_samples" "market_pubkey" (literal 100) id)
      some (found market trades twap)
  ]

-- The count and volume of a market's trades of one type, and its traders; the database counts and
-- sums.
pub record Stats : Type 0 where
  pub buys : ℕ × ℕ
  pub sells : ℕ × ℕ
  pub unique_traders : ℕ

abbrev trades_of_type : String → String → Select
trades_of_type id type' = record (of_market "trades" "market_pubkey" unlimited id) {
  literals = ("trade_type", type') ∷ [];
}

unfoldable pub get_stats : (Select → Option (ℕ × ℕ)) → (Select → Option ℕ) → String → Option Stats
get_stats count_and_volume count_traders id = do
  buys ← count_and_volume (trades_of_type id "buy")
  sells ← count_and_volume (trades_of_type id "sell")
  traders ← count_traders (of_market "trades" "market_pubkey" unlimited id)
  some (record { buys = buys; sells = sells; unique_traders = traders })
