-- ===== src/Backend/Live.antt =====
-- The listener of backend/src/indexer.ts, `startEventListener`: each event in the logs starts a call
-- of `handleEvent` that is not awaited, so the calls interleave at their awaits.
pub mod Steps
pub mod Laws
mod Tests
use duel_protocol.Prelude.{
  ℕ, String, Bool, Option, none, some, List, [], ◌∷◌, ◌++◌, ◌≡◌, map, if◌then◌else◌,
}
use duel_protocol.Backend.Db.{Statement, upsert_market, insert_trade, insert_twap_sample}
use duel_protocol.Backend.Ingest.{Store, Database, query, set_slot}
use duel_protocol.Backend.Ingest.Rows.{
  Event, market_created, tokens_bought, tokens_sold, twap_sampled, market_resolved, other, Fetched,
  created_row, trade_row, sample_row, resolved_row, synced_row,
}

-- Where a call of `handleEvent` waits: for a row that ends its `switch`, for the row of a new market,
-- for the fetches of `syncSingleMarket`, for the row that it writes, or for `setState`.
pub data Task : Type 0 where
  writing : (q : Statement) (slot : ℕ) → Task
  creating : (market : String) (q : Statement) (slot : ℕ) → Task
  fetching : (market : String) (slot : ℕ) → Task
  syncing : (q : Statement) (slot : ℕ) → Task
  storing : (slot : ℕ) → Task

pub record Live : Type 0 where
  pub store : Store
  pub tasks : List Task

-- A call up to its first await.
unfoldable pub begin : ℕ × Event → Task
begin (slot, market_created d) = creating d.market (upsert_market (created_row d)) slot
begin (slot, tokens_bought d) = writing (insert_trade (trade_row d "buy" slot)) slot
begin (slot, tokens_sold d) = writing (insert_trade (trade_row d "sell" slot)) slot
begin (slot, twap_sampled d) = writing (insert_twap_sample (sample_row d slot)) slot
begin (slot, market_resolved d) = writing (upsert_market (resolved_row d)) slot
begin (slot, other) = storing slot

module _ (parse_logs : List String → List Event) where
  -- The events of a notification: `if (logInfo.err) return`.
  abbrev pub heard : Bool → List String → ℕ → List (ℕ × Event)
  heard err logs slot = if err then [] else map (λ e. (slot, e)) (parse_logs logs)

  unfoldable pub on_logs : Bool → List String → ℕ → Live → Live
  unfolding begin
  on_logs err logs slot l = record l { tasks = l.tasks ++ map begin (heard err logs slot) }

module _ (db : Database) where
  -- What follows an answer, up to the next await if there is one. `found` is what the fetches give,
  -- `none` when they throw.
  unfoldable pub resume : ℕ → Option Fetched → Task → Store → Store × Option Task
  unfolding query set_slot
  resume now_ms found (writing q slot) s =
      let written = query db q s in (written.0, if written.1 then some (storing slot) else none)
  resume now_ms found (creating market q slot) s =
      let written = query db q s in
      (written.0, if written.1 then some (fetching market slot) else none)
  resume now_ms found (fetching market slot) s = (
    s,
    some (elim found [
      | none ↦ storing slot
      | some f ↦ syncing (upsert_market (synced_row now_ms market f)) slot
    ]),
  )
  resume now_ms found (syncing q slot) s = ((query db q s).0, some (storing slot))
  resume now_ms found (storing slot) s = (set_slot db slot s, none)

  -- The task between `before` and `after` gets its answer.
  unfoldable pub answered : ℕ → Option Fetched → List Task → Task → List Task → Store → Live
  unfolding resume
  answered now_ms found before t after s =
      let next = resume now_ms found t s in
      record {
        store = next.0;
        tasks =
            before ++ (elim next.1 as (λ o. List Task) [ none ↦ [] | some u ↦ u ∷ [] ]) ++ after;
      }
