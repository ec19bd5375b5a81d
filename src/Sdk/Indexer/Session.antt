-- ===== src/Sdk/Indexer/Session.antt =====
-- The life of an indexer, `start`, `stop` and `getSnapshot` of sdk/src/indexer.ts: the subscription
-- that it holds, the listeners that the connection has, and the calls that interleave where they
-- wait for the connection.
pub mod Laws
mod Tests
use duel_protocol.Prelude.{
  ℕ, suc, ◌+◌, ◌-◌, ◌≡◌, Option, none, some, Bool, true, false, List, [], ◌∷◌, map, String, length,
  ◌==◌, ◌||◌, if◌then◌else◌,
}
use duel_protocol.Rpc.{Transaction}
use duel_protocol.Sdk.Indexer.{Key, DuelIndexer, MarketAnalytics, process_events, new_indexer}
use duel_protocol.Sdk.Indexer.Backfill.{Event, parse_events, backfill_txs}

-- `waiting` counts the calls of `stop` that wait for the listener's removal. The connection numbers
-- its listeners.
pub record Session : Type 0 where
  pub indexer : DuelIndexer
  pub subscription_id : Option ℕ
  pub listeners : List ℕ
  pub next_id : ℕ
  pub waiting : ℕ

unfoldable pub new_session : Session
new_session = record {
  indexer = new_indexer;
  subscription_id = none;
  listeners = [];
  next_id = 0;
  waiting = 0;
}

unfoldable pub remove : ℕ → List ℕ → List ℕ
remove id [] = []
remove id (x ∷ xs) = let rest = remove id xs in if x == id then rest else x ∷ rest

-- A second call only warns.
unfoldable pub start_from : Option ℕ → Session → Session
start_from (some id) s = s
start_from none s = record s {
  subscription_id = some s.next_id;
  listeners = s.next_id ∷ s.listeners;
  next_id = s.next_id + 1;
}

unfoldable pub start : Session → Session
start s = start_from s.subscription_id s

-- `stop` up to its `await`, and after it.
unfoldable pub stop_from : Option ℕ → Session → Session
stop_from none s = s
stop_from (some id) s = record s { listeners = remove id s.listeners; waiting = s.waiting + 1 }

unfoldable pub stop : Session → Session
stop s = stop_from s.subscription_id s

unfoldable pub stopped : Session → Session
stopped s = record s { subscription_id = none; waiting = s.waiting - 1 }

module _ (parse_logs : List String → List Event) (clock : ℕ → ℕ) where
  -- The callback of the subscription; failed transactions are skipped.
  unfoldable pub on_logs : ℕ → Bool → List String → Session → Session
  on_logs slot err logs s =
      if err
      then s
      else record s { indexer = process_events clock slot (parse_events parse_logs logs) s.indexer }

  -- The part of `backfill` between two answers of the connection.
  unfoldable pub on_batch : List (Option Transaction) → Session → Session
  on_batch txs s = record s { indexer = (backfill_txs parse_logs clock txs (0, s.indexer)).1 }

-- What `getSnapshot` shows of a market and of the global counters.
pub record MarketSnapshot : Type 0 where
  pub market : Key
  pub authority : Option Key
  pub deadline : ℕ
  pub total_buys : ℕ
  pub total_sells : ℕ
  pub total_volume_sol : ℕ
  pub unique_traders : ℕ
  pub resolved : Bool
  pub winner : Option ℕ
  pub dex_pool : Option Key

pub record Snapshot : Type 0 where
  pub total_markets : ℕ
  pub total_buys : ℕ
  pub total_sells : ℕ
  pub total_volume_sol : ℕ
  pub total_fees : ℕ
  pub markets_resolved : ℕ
  pub unique_traders : ℕ
  pub events_processed : ℕ
  pub markets : List MarketSnapshot

unfoldable pub market_snapshot : MarketAnalytics → MarketSnapshot
market_snapshot m = record {
  market = m.market;
  authority = m.authority;
  deadline = m.deadline;
  total_buys = m.total_buys;
  total_sells = m.total_sells;
  total_volume_sol = m.total_volume_sol;
  unique_traders = length m.unique_traders;
  resolved = m.resolved;
  winner = m.winner;
  dex_pool = m.dex_pool;
}

unfoldable pub get_snapshot : DuelIndexer → Snapshot
get_snapshot ix = record {
  total_markets = ix.global.total_markets;
  total_buys = ix.global.total_buys;
  total_sells = ix.global.total_sells;
  total_volume_sol = ix.global.total_volume_sol;
  total_fees = ix.global.total_fees;
  markets_resolved = ix.global.markets_resolved;
  unique_traders = length ix.global.unique_traders;
  events_processed = ix.global.events_processed;
  markets = map market_snapshot ix.markets;
}
