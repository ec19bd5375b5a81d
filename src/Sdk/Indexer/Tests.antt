-- ===== src/Sdk/Indexer/Tests.antt =====
-- The analytics on a concrete batch of events.
use duel_protocol.Prelude.{ℕ, ◌+◌, ◌≡◌, refl, List, [], ◌∷◌, map}
use duel_protocol.Sdk.Indexer.{
  Trade, Resolution, DuelEvent, market_created, tokens_bought, tokens_sold, twap_sampled,
  market_resolved, market_closed, MarketAnalytics, process_events, new_indexer, fresh_market, has,
  includes, add, get_or_create_market, mutate, update_analytics, process_event,
}
use duel_protocol.Sdk.Indexer.Laws.Totals.{IsSummed, process_events-IsSummed, new_indexer-IsSummed}

abbrev clock : ℕ → ℕ
clock n = 1000 + n

abbrev trade : ℕ → ℕ → ℕ → Trade
trade market' trader' quote' = record {
  market = market';
  side = 0;
  trader = trader';
  quote = quote';
  tokens = 500;
  fee_amount = 2;
  new_price = 77;
}

abbrev resolution : Resolution
resolution = record {
  market = 1;
  winner = 0;
  final_twap_a = 50;
  final_twap_b = 40;
  dex_pool = 9;
  sol_seeded = 100;
  tokens_seeded = 200;
}

abbrev events : List DuelEvent
events =
    market_created 1 8 5000
    ∷ tokens_bought (trade 1 4 100)
    ∷ tokens_bought (trade 2 4 30)
    ∷ tokens_sold (trade 1 4 60)
    ∷ tokens_sold (trade 1 5 7)
    ∷ twap_sampled 2
    ∷ market_resolved resolution
    ∷ market_closed 1
    ∷ []

totals_run :
    let ix = process_events clock 3 events new_indexer in
    (ix.global.total_volume_sol ≡ 197)
    × (ix.global.unique_traders ≡ 4 ∷ 5 ∷ [])
    × (ix.global.events_processed ≡ 8)
    × (map (λ (m : MarketAnalytics). m.total_volume_sol) ix.markets ≡ 167 ∷ 30 ∷ [])
unfolding process_events process_event update_analytics mutate get_or_create_market add includes has
    fresh_market new_indexer
totals_run = (refl, refl, refl, refl)

process_events-IsSummed_example : IsSummed (process_events clock 3 events new_indexer)
process_events-IsSummed_example =
    process_events-IsSummed clock 3 events new_indexer new_indexer-IsSummed
