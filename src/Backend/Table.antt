-- ===== src/Backend/Table.antt =====
-- The table of markets that the statements of backend/src/indexer.ts leave behind, for the column
-- that the API filters by: the status. What PostgreSQL makes of an `INSERT` with
-- `ON CONFLICT (pubkey) DO UPDATE SET` is an interface.
pub mod Laws
mod Tests
use text.Mathlib.Text.{◌==◌ as str_eq}
use duel_protocol.Prelude.{
  ℕ, ◌≡◌, String, Bool, true, false, Option, none, some, List, [], ◌∷◌, ◌++◌, if◌then◌else◌,
}
use duel_protocol.Backend.Db.{Value, str, Statement, upsert_market}
use duel_protocol.Backend.Db.Laws.{value_at}
use duel_protocol.Backend.Ingest.{Database}
use duel_protocol.Backend.Ingest.Rows.{
  Event, market_created, tokens_bought, tokens_sold, twap_sampled, market_resolved, other, Fetched,
  created_row, resolved_row, synced_row, get_market_status,
}

-- The value that a statement inserts into a column, and the one that its update sets it to.
abbrev pub inserted_at : String → List String → List ℕ → List Value → Option Value
inserted_at k [] ns vs = none
inserted_at k (c ∷ cs) [] vs = none
inserted_at k (c ∷ cs) (n ∷ ns) vs = if str_eq c k then value_at n vs else inserted_at k cs ns vs

abbrev pub inserted : String → Statement → Option Value
inserted k q = inserted_at k q.columns q.placeholders q.parameters

abbrev pub set_at : String → List (String × ℕ) → List Value → Option Value
set_at k [] vs = none
set_at k ((c, n) ∷ sets) vs = if str_eq c k then value_at n vs else set_at k sets vs

abbrev pub set_to : String → Statement → Option Value
set_to k q = set_at k q.sets q.parameters

-- A table of markets: `status t p` is the status of the row with the key `p`, if there is one.
pub record Markets : Type 1 where
  pub Table : Type 0
  pub run : Statement → Table → Table
  pub status : Table → String → Option Value

-- A statement on another table leaves this one alone. One for a key leaves the rows of the other
-- keys alone, and its own row has the value afterwards that both the insertion and the update give.
pub record IsUpserting (m : Markets) : Type 0 where
  pub elsewhere :
      (q : Statement) (t : m.Table) (p : String)
      → str_eq q.table "markets" ≡ false
      → m.status (m.run q t) p ≡ m.status t p
  pub other_row :
      (q : Statement) (t : m.Table) (key p : String)
      → inserted "pubkey" q ≡ some (str key)
      → str_eq key p ≡ false
      → m.status (m.run q t) p ≡ m.status t p
  pub own_row :
      (q : Statement) (t : m.Table) (key p : String) (v : Value)
      → str_eq q.table "markets" ≡ true
      → inserted "pubkey" q ≡ some (str key)
      → inserted "status" q ≡ some v
      → set_to "status" q ≡ some v
      → str_eq key p ≡ true
      → m.status (m.run q t) p ≡ some v

-- The table after the statements, oldest first.
abbrev pub contents : (m : Markets) → List Statement → m.Table → m.Table
contents m [] t = t
contents m (q ∷ qs) t = contents m qs (m.run q t)

-- Whether a row of markets is accepted depends on the statement alone.
pub record Decides (db : Database) (ok : Statement → Bool) : Type 0 where
  pub decided :
      (past : List Statement) (q : Statement)
      → str_eq q.table "markets" ≡ true
      → db.accepts past q ≡ ok q

abbrev pub mine : String → String → Value → List Value
mine p key v = if str_eq key p then v ∷ [] else []

-- What the events say about the status of the market `p`, oldest first.
module _ (ok : Statement → Bool) (fetch : String → Option Fetched) (now_ms : ℕ) (p : String) where
  abbrev pub sync_statuses : String → List Value
  sync_statuses key = elim (fetch key) as (λ o. List Value) [
    | none ↦ []
    | some found ↦
        if ok (upsert_market (synced_row now_ms key found))
        then mine p key (str (get_market_status now_ms found))
        else []
  ]

  abbrev pub statuses : Event → List Value
  statuses (market_created d) =
      if ok (upsert_market (created_row d))
      then mine p d.market (str "active") ++ sync_statuses d.market
      else []
  statuses (market_resolved d) =
      if ok (upsert_market (resolved_row d)) then mine p d.market (str "resolved") else []
  statuses (tokens_bought d) = []
  statuses (tokens_sold d) = []
  statuses (twap_sampled d) = []
  statuses other = []

  abbrev pub all_statuses : List (ℕ × Event) → List Value
  all_statuses [] = []
  all_statuses ((slot, e) ∷ es) = statuses e ++ all_statuses es

-- The last of the values, or what was there before them.
abbrev pub latest : List Value → Option Value → Option Value
latest [] before = before
latest (v ∷ vs) before = latest vs (some v)
