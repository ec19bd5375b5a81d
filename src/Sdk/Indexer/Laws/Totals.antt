-- ===== src/Sdk/Indexer/Laws/Totals.antt =====
-- The global totals are the sums over the markets.
use duel_protocol.Prelude.{ℕ, ◌+◌, ◌≤◌, ◌≡◌, refl, List, [], ◌∷◌, arith, sum_by, if◌then◌else◌}
use duel_protocol.Sdk.Indexer.{
  DuelEvent, market_created, tokens_bought, tokens_sold, twap_sampled, market_resolved,
  config_updated, market_closed, emergency_resolved, DuelIndexer, MarketAnalytics, fresh_market,
  on_created, on_buy, on_sell, on_sampled, on_resolved, update_analytics, process_event,
  process_events, new_indexer, get_or_create_market, mutate,
}
use duel_protocol.Sdk.Indexer.Laws.{sum_by-with_market, sum_by-with_market_le}

abbrev pub buys : MarketAnalytics → ℕ
buys m = m.total_buys

abbrev pub sells : MarketAnalytics → ℕ
sells m = m.total_sells

abbrev pub volume : MarketAnalytics → ℕ
volume m = m.total_volume_sol

abbrev pub fees : MarketAnalytics → ℕ
fees m = m.total_fees

abbrev pub finished : MarketAnalytics → ℕ
finished m = if m.resolved then 1 else 0

-- The global counters are the sums over the markets, and no more markets are resolved than
-- resolutions were counted.
pub record IsSummed (ix : DuelIndexer) : Type 0 where
  pub buys_summed : ix.global.total_buys ≡ sum_by buys ix.markets
  pub sells_summed : ix.global.total_sells ≡ sum_by sells ix.markets
  pub volume_summed : ix.global.total_volume_sol ≡ sum_by volume ix.markets
  pub fees_summed : ix.global.total_fees ≡ sum_by fees ix.markets
  pub finished_counted : sum_by finished ix.markets ≤ ix.global.markets_resolved

-- By how much a change of one market moves each measure.
record Adds (b s v w r : ℕ) (f : MarketAnalytics → MarketAnalytics) : Type 0 where
  adds_buys : (m : MarketAnalytics) → buys (f m) ≡ buys m + b
  adds_sells : (m : MarketAnalytics) → sells (f m) ≡ sells m + s
  adds_volume : (m : MarketAnalytics) → volume (f m) ≡ volume m + v
  adds_fees : (m : MarketAnalytics) → fees (f m) ≡ fees m + w
  adds_finished : (m : MarketAnalytics) → finished (f m) ≤ finished m + r

with_market_summed :
    (k now b s v w r : ℕ) (f : MarketAnalytics → MarketAnalytics) (ix : DuelIndexer)
    → Adds b s v w r f
    → let ms = mutate k f (get_or_create_market k now ix.markets) in
      IsSummed ix
      → (sum_by buys ms ≡ ix.global.total_buys + b)
        × (sum_by sells ms ≡ ix.global.total_sells + s)
        × (sum_by volume ms ≡ ix.global.total_volume_sol + v)
        × (sum_by fees ms ≡ ix.global.total_fees + w)
        × (sum_by finished ms ≤ ix.global.markets_resolved + r)
unfolding fresh_market
with_market_summed k now b s v w r f ix a h = omega (
  arith,
  sum_by-with_market buys f b k now refl ix.markets a.adds_buys,
  sum_by-with_market sells f s k now refl ix.markets a.adds_sells,
  sum_by-with_market volume f v k now refl ix.markets a.adds_volume,
  sum_by-with_market fees f w k now refl ix.markets a.adds_fees,
  sum_by-with_market_le finished f r k now refl ix.markets a.adds_finished,
)

update_analytics-IsSummed :
    (now : ℕ) (e : DuelEvent) (ix : DuelIndexer)
    → IsSummed ix
    → IsSummed (update_analytics now e ix)
unfolding update_analytics
update_analytics-IsSummed now (market_created k authority deadline) ix h = omega (
  arith,
  with_market_summed k now 0 0 0 0 0 (on_created authority deadline now) ix (omega arith) h,
)
update_analytics-IsSummed now (tokens_bought d) ix h = omega (
  arith,
  with_market_summed d.market now 1 0 d.quote d.fee_amount 0 (on_buy d now) ix (omega arith) h,
)
update_analytics-IsSummed now (tokens_sold d) ix h = omega (
  arith,
  with_market_summed d.market now 0 1 d.quote d.fee_amount 0 (on_sell d now) ix (omega arith) h,
)
update_analytics-IsSummed now (twap_sampled k) ix h =
    omega (arith, with_market_summed k now 0 0 0 0 0 on_sampled ix (omega arith) h)
update_analytics-IsSummed now (market_resolved d) ix h =
    omega (arith, with_market_summed d.market now 0 0 0 0 1 (on_resolved d) ix (ground arith) h)
update_analytics-IsSummed now config_updated ix h = h
update_analytics-IsSummed now (market_closed k) ix h = h
update_analytics-IsSummed now (emergency_resolved k) ix h = h

pub process_event-IsSummed :
    (clock : ℕ → ℕ) (slot : ℕ) (e : DuelEvent) (ix : DuelIndexer)
    → IsSummed ix
    → IsSummed (process_event clock slot e ix)
unfolding process_event
process_event-IsSummed clock slot e ix h =
    omega (arith, update_analytics-IsSummed (clock ix.global.events_processed) e ix h)

-- Any batch of events keeps the global counts of buys, sells, volume and fees equal to the sums
-- over the markets, and the resolved markets at most as many as the resolutions counted.
pub process_events-IsSummed :
    (clock : ℕ → ℕ) (slot : ℕ) (es : List DuelEvent) (ix : DuelIndexer)
    → IsSummed ix
    → IsSummed (process_events clock slot es ix)
unfolding process_events
process_events-IsSummed clock slot [] ix h = h
process_events-IsSummed clock slot (e ∷ es) ix h =
    process_events-IsSummed clock slot es (process_event clock slot e ix)
      (process_event-IsSummed clock slot e ix h)

pub new_indexer-IsSummed : IsSummed new_indexer
unfolding new_indexer
new_indexer-IsSummed = omega arith
