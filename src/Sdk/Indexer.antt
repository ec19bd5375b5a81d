-- ===== src/Sdk/Indexer.antt =====
-- The analytics indexer of the SDK, sdk/src/indexer.ts. Keys are compared and never computed with,
-- so a number stands for the base58 text of each.
pub mod Backfill
pub mod Laws
pub mod Session
mod Tests
use duel_protocol.Prelude.{
  ℕ, ◌+◌, Option, none, some, Bool, true, false, List, [], ◌∷◌, ◌++◌, map, ◌==◌, ◌||◌,
  if◌then◌else◌, length,
}

abbrev pub Key : Type 0
Key = ℕ

pub record Trade : Type 0 where
  pub market : Key
  pub side : ℕ
  pub trader : Key
  pub quote : ℕ
  pub tokens : ℕ
  pub fee_amount : ℕ
  pub new_price : ℕ

pub record Resolution : Type 0 where
  pub market : Key
  pub winner : ℕ
  pub final_twap_a : ℕ
  pub final_twap_b : ℕ
  pub dex_pool : Key
  pub sol_seeded : ℕ
  pub tokens_seeded : ℕ

-- `DuelEvent`, with the fields that the analytics read. A purchase has `quoteAmount` and
-- `tokensReceived`, a sale `quoteReceived` and `tokenAmount`, as `quote` and `tokens`.
pub data DuelEvent : Type 0 where
  market_created : Key → Key → ℕ → DuelEvent
  tokens_bought : Trade → DuelEvent
  tokens_sold : Trade → DuelEvent
  twap_sampled : Key → DuelEvent
  market_resolved : Resolution → DuelEvent
  config_updated : DuelEvent
  market_closed : Key → DuelEvent
  emergency_resolved : Key → DuelEvent

pub record PricePoint : Type 0 where
  pub side : ℕ
  pub price : ℕ
  pub timestamp : ℕ

pub record MarketAnalytics : Type 0 where
  pub market : Key
  pub authority : Option Key
  pub deadline : ℕ
  pub created_at : ℕ
  pub total_buys : ℕ
  pub total_sells : ℕ
  pub total_volume_sol : ℕ
  pub total_tokens_traded : ℕ
  pub total_fees : ℕ
  pub unique_traders : List Key
  pub twap_samples : ℕ
  pub resolved : Bool
  pub winner : Option ℕ
  pub final_twap_a : Option ℕ
  pub final_twap_b : Option ℕ
  pub dex_pool : Option Key
  pub sol_seeded : Option ℕ
  pub tokens_seeded : Option ℕ
  pub price_history : List PricePoint

pub record GlobalAnalytics : Type 0 where
  pub total_markets : ℕ
  pub total_buys : ℕ
  pub total_sells : ℕ
  pub total_volume_sol : ℕ
  pub total_fees : ℕ
  pub markets_resolved : ℕ
  pub unique_traders : List Key
  pub events_processed : ℕ

-- The map of markets is kept in insertion order. `callbacks` are numbered, and `calls` is what
-- they have been called with, oldest first.
pub record DuelIndexer : Type 0 where
  pub markets : List MarketAnalytics
  pub global : GlobalAnalytics
  pub callbacks : List ℕ
  pub calls : List (ℕ × DuelEvent × ℕ)

unfoldable pub fresh_market : Key → ℕ → MarketAnalytics
fresh_market market_key now = record {
  market = market_key;
  authority = none;
  deadline = 0;
  created_at = now;
  total_buys = 0;
  total_sells = 0;
  total_volume_sol = 0;
  total_tokens_traded = 0;
  total_fees = 0;
  unique_traders = [];
  twap_samples = 0;
  resolved = false;
  winner = none;
  final_twap_a = none;
  final_twap_b = none;
  dex_pool = none;
  sol_seeded = none;
  tokens_seeded = none;
  price_history = [];
}

-- `Map.has`, `Set.has` and `Set.add`.
unfoldable pub has : Key → List MarketAnalytics → Bool
has k [] = false
has k (m ∷ ms) = m.market == k || has k ms

unfoldable pub includes : Key → List Key → Bool
includes k [] = false
includes k (x ∷ xs) = x == k || includes k xs

unfoldable pub add : Key → List Key → List Key
add k xs = if includes k xs then xs else xs ++ k ∷ []

unfoldable pub get_or_create_market : Key → ℕ → List MarketAnalytics → List MarketAnalytics
get_or_create_market k now ms = if has k ms then ms else ms ++ fresh_market k now ∷ []

-- A change of the object that `getOrCreateMarket` returns.
unfoldable pub mutate :
    Key → (MarketAnalytics → MarketAnalytics) → List MarketAnalytics → List MarketAnalytics
mutate k f [] = []
mutate k f (m ∷ ms) = let rest = mutate k f ms in if m.market == k then f m ∷ ms else m ∷ rest

abbrev pub with_market : Key → ℕ → (MarketAnalytics → MarketAnalytics) → DuelIndexer → DuelIndexer
with_market k now f ix = record ix { markets = mutate k f (get_or_create_market k now ix.markets) }

abbrev pub on_created : Key → ℕ → ℕ → MarketAnalytics → MarketAnalytics
on_created authority' deadline' now m = record m {
  authority = some authority';
  deadline = deadline';
  created_at = now;
}

abbrev pub point : Trade → ℕ → PricePoint
point d now = record { side = d.side; price = d.new_price; timestamp = now }

abbrev pub on_buy : Trade → ℕ → MarketAnalytics → MarketAnalytics
on_buy d now m = record m {
  total_buys = m.total_buys + 1;
  total_volume_sol = m.total_volume_sol + d.quote;
  total_tokens_traded = m.total_tokens_traded + d.tokens;
  total_fees = m.total_fees + d.fee_amount;
  unique_traders = add d.trader m.unique_traders;
  price_history = m.price_history ++ point d now ∷ [];
}

abbrev pub on_sell : Trade → ℕ → MarketAnalytics → MarketAnalytics
on_sell d now m = record m {
  total_sells = m.total_sells + 1;
  total_volume_sol = m.total_volume_sol + d.quote;
  total_tokens_traded = m.total_tokens_traded + d.tokens;
  total_fees = m.total_fees + d.fee_amount;
  unique_traders = add d.trader m.unique_traders;
  price_history = m.price_history ++ point d now ∷ [];
}

abbrev pub on_resolved : Resolution → MarketAnalytics → MarketAnalytics
on_resolved d m = record m {
  resolved = true;
  winner = some d.winner;
  final_twap_a = some d.final_twap_a;
  final_twap_b = some d.final_twap_b;
  dex_pool = some d.dex_pool;
  sol_seeded = some d.sol_seeded;
  tokens_seeded = some d.tokens_seeded;
}

abbrev pub on_sampled : MarketAnalytics → MarketAnalytics
on_sampled m = record m { twap_samples = m.twap_samples + 1 }

abbrev pub count_trade : Trade → GlobalAnalytics → GlobalAnalytics
count_trade d g = record g {
  total_volume_sol = g.total_volume_sol + d.quote;
  total_fees = g.total_fees + d.fee_amount;
  unique_traders = add d.trader g.unique_traders;
}

unfoldable pub update_analytics : ℕ → DuelEvent → DuelIndexer → DuelIndexer
update_analytics now (market_created k authority deadline) ix =
    let ix' = with_market k now (on_created authority deadline now) ix in
    record ix' { global = record ix'.global { total_markets = ix'.global.total_markets + 1 } }
update_analytics now (tokens_bought d) ix =
    let ix' = with_market d.market now (on_buy d now) ix in
    let g = count_trade d ix'.global in
    record ix' { global = record g { total_buys = g.total_buys + 1 } }
update_analytics now (tokens_sold d) ix =
    let ix' = with_market d.market now (on_sell d now) ix in
    let g = count_trade d ix'.global in
    record ix' { global = record g { total_sells = g.total_sells + 1 } }
update_analytics now (twap_sampled k) ix = with_market k now on_sampled ix
update_analytics now (market_resolved d) ix =
    let ix' = with_market d.market now (on_resolved d) ix in
    record ix' { global = record ix'.global { markets_resolved = ix'.global.markets_resolved + 1 } }
update_analytics now config_updated ix = ix
update_analytics now (market_closed k) ix = ix
update_analytics now (emergency_resolved k) ix = ix

-- One round of `processEvents`: the analytics, the counter, then every callback in order.
-- `clock` gives the second at which the nth event of the indexer is handled.
unfoldable pub process_event : (ℕ → ℕ) → ℕ → DuelEvent → DuelIndexer → DuelIndexer
process_event clock slot e ix =
    let ix' = update_analytics (clock ix.global.events_processed) e ix in
    record ix' {
      global = record ix'.global { events_processed = ix'.global.events_processed + 1 };
      calls = ix'.calls ++ map (λ cb. (cb, e, slot)) ix'.callbacks;
    }

unfoldable pub process_events : (ℕ → ℕ) → ℕ → List DuelEvent → DuelIndexer → DuelIndexer
process_events clock slot [] ix = ix
process_events clock slot (e ∷ es) ix = process_events clock slot es (process_event clock slot e ix)

unfoldable pub on_event : ℕ → DuelIndexer → DuelIndexer
on_event callback ix = record ix { callbacks = ix.callbacks ++ callback ∷ [] }

unfoldable pub new_indexer : DuelIndexer
new_indexer = record {
  markets = [];
  global = record {
    total_markets = 0;
    total_buys = 0;
    total_sells = 0;
    total_volume_sol = 0;
    total_fees = 0;
    markets_resolved = 0;
    unique_traders = [];
    events_processed = 0;
  };
  callbacks = [];
  calls = [];
}
