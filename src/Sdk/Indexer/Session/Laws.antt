-- ===== src/Sdk/Indexer/Session/Laws.antt =====
-- What holds of an indexer whatever calls and logs interleave, as long as `stop` is not called while
-- another call of it waits.
use mathlib.Core.List.{Memᴰ}
use mathlib.Core.Path.{subst}
use duel_protocol.Prelude.{
  ℕ, suc, ◌+◌, ◌-◌, ◌≡◌, refl, ◌∙◌, sym, Option, none, some, Bool, false, List, [], ◌∷◌, map,
  String, arith, sum_by, if_intro, ap, Option-cases, inl, inr,
}
use duel_protocol.Rpc.{Transaction, usable_logs}
use duel_protocol.Sdk.Indexer.{DuelIndexer, MarketAnalytics}
use duel_protocol.Sdk.Indexer.Backfill.{Event, parse_events, backfill_tx, backfill_txs}
use duel_protocol.Sdk.Indexer.Laws.Totals.{IsSummed, process_events-IsSummed, new_indexer-IsSummed}
use duel_protocol.Sdk.Indexer.Session.{
  Session, new_session, remove, start_from, start, stop_from, stop, stopped, on_logs, on_batch,
  MarketSnapshot, market_snapshot, get_snapshot,
}

-- Not subscribed, subscribed with one listener, or waiting for its removal.
pub data IsSingle (s : Session) : Type 0 where
  off : s.subscription_id ≡ none → s.listeners ≡ [] → s.waiting ≡ 0 → IsSingle s
  on : (id : ℕ) → s.subscription_id ≡ some id → s.listeners ≡ id ∷ [] → s.waiting ≡ 0 → IsSingle s
  closing : (id : ℕ) → s.subscription_id ≡ some id → s.listeners ≡ [] → s.waiting ≡ 1 → IsSingle s

-- The parts of the state that `IsSingle` is about are the same.
record Keeps (s t : Session) : Type 0 where
  same_id : t.subscription_id ≡ s.subscription_id
  same_listeners : t.listeners ≡ s.listeners
  same_waiting : t.waiting ≡ s.waiting

Keeps-IsSingle : (s t : Session) → Keeps s t → IsSingle s → IsSingle t
Keeps-IsSingle s t k (off free silent calm) =
    off (k.same_id ∙ free) (k.same_listeners ∙ silent) (k.same_waiting ∙ calm)
Keeps-IsSingle s t k (on id taken one calm) =
    on id (k.same_id ∙ taken) (k.same_listeners ∙ one) (k.same_waiting ∙ calm)
Keeps-IsSingle s t k (closing id taken silent waits) =
    closing id (k.same_id ∙ taken) (k.same_listeners ∙ silent) (k.same_waiting ∙ waits)

remove_self : (id : ℕ) → remove id (id ∷ []) ≡ []
unfolding remove
remove_self id = ground arith

-- What a caller sees of a session.
pub record IsSound (s : Session) : Type 0 where
  pub single : IsSingle s
  pub buys_shown :
      (get_snapshot s.indexer).total_buys
      ≡ sum_by (λ (m : MarketSnapshot). m.total_buys) (get_snapshot s.indexer).markets
  pub sells_shown :
      (get_snapshot s.indexer).total_sells
      ≡ sum_by (λ (m : MarketSnapshot). m.total_sells) (get_snapshot s.indexer).markets
  pub volume_shown :
      (get_snapshot s.indexer).total_volume_sol
      ≡ sum_by (λ (m : MarketSnapshot). m.total_volume_sol) (get_snapshot s.indexer).markets

-- A sum over images is the sum of the composite.
sum_by-map :
    (f : MarketSnapshot → ℕ) (ms : List MarketAnalytics)
    → sum_by f (map market_snapshot ms) ≡ sum_by (λ m. f (market_snapshot m)) ms
sum_by-map f [] = refl
sum_by-map f (m ∷ ms) = ap (λ k. f (market_snapshot m) + k) (sum_by-map f ms)

indexer-start_from : (o : Option ℕ) (s : Session) → (start_from o s).indexer ≡ s.indexer
unfolding start_from
indexer-start_from none s = refl
indexer-start_from (some id) s = refl

indexer-stop_from : (o : Option ℕ) (s : Session) → (stop_from o s).indexer ≡ s.indexer
unfolding stop_from
indexer-stop_from none s = refl
indexer-stop_from (some id) s = refl

module _ (parse_logs : List String → List Event) (clock : ℕ → ℕ) where
  -- One call, answer or log. Logs come to a listener of the connection.
  pub data Step : Session → Session → Type 0 where
    starts : (s : Session) → Step s (start s)
    stops : (s : Session) → s.waiting ≡ 0 → Step s (stop s)
    removed : (s : Session) (n : ℕ) → s.waiting ≡ suc n → Step s (stopped s)
    logs :
        (s : Session) (id slot : ℕ) (err : Bool) (lines : List String)
        → Memᴰ id s.listeners
        → Step s (on_logs parse_logs clock slot err lines s)
    batch :
        (s : Session) (txs : List (Option Transaction)) → Step s (on_batch parse_logs clock txs s)

  pub data Reaches : Session → Session → Type 0 where
    done : (s : Session) → Reaches s s
    next : (s t u : Session) → Reaches s t → Step t u → Reaches s u

  backfill_tx-IsSummed :
      (tx : Option Transaction) (p : ℕ × DuelIndexer)
      → IsSummed p.1
      → IsSummed (backfill_tx parse_logs clock tx p).1
  unfolding backfill_tx
  backfill_tx-IsSummed tx (n, ix) h = elim (Option-cases (usable_logs tx)) [
    | inl unusable ↦ rw (backfill_tx, unusable) h
    | inr ((slot, lines), usable) ↦
        rw (backfill_tx, usable)
          (process_events-IsSummed clock slot (parse_events parse_logs lines) ix h)
  ]

  backfill_txs-IsSummed :
      (txs : List (Option Transaction)) (p : ℕ × DuelIndexer)
      → IsSummed p.1
      → IsSummed (backfill_txs parse_logs clock txs p).1
  unfolding backfill_txs
  backfill_txs-IsSummed [] p h = h
  backfill_txs-IsSummed (tx ∷ txs) p h =
      backfill_txs-IsSummed txs (backfill_tx parse_logs clock tx p) (backfill_tx-IsSummed tx p h)

  Step-IsSummed : (s t : Session) → Step s t → IsSummed s.indexer → IsSummed t.indexer
  unfolding start stop stopped on_logs on_batch
  Step-IsSummed s t (starts _) h = rw (indexer-start_from s.subscription_id s) h
  Step-IsSummed s t (stops _ calm) h = rw (indexer-stop_from s.subscription_id s) h
  Step-IsSummed s t (removed _ n waits) h = h
  Step-IsSummed s t (logs _ id slot err lines listening) h =
      if_intro (λ (u : Session). IsSummed u.indexer) err h
        (process_events-IsSummed clock slot (parse_events parse_logs lines) s.indexer h)
  Step-IsSummed s t (batch _ txs) h = backfill_txs-IsSummed txs (0, s.indexer) h

  Step-IsSingle : (s t : Session) → Step s t → IsSingle s → IsSingle t
  unfolding start start_from stop stop_from stopped on_logs on_batch
  Step-IsSingle s t (starts _) (off free silent calm) =
      rw free (on s.next_id refl (ap (λ ls. s.next_id ∷ ls) silent) calm)
  Step-IsSingle s t (starts _) (on id taken one calm) =
      subst (λ (o : Option ℕ). IsSingle (start_from o s)) (sym taken) (on id taken one calm)
  Step-IsSingle s t (starts _) (closing id taken silent waits) =
      subst (λ (o : Option ℕ). IsSingle (start_from o s)) (sym taken)
        (closing id taken silent waits)
  Step-IsSingle s t (stops _ _) (off free silent calm) =
      subst (λ (o : Option ℕ). IsSingle (stop_from o s)) (sym free) (off free silent calm)
  Step-IsSingle s t (stops _ _) (on id taken one calm) =
      subst (λ (o : Option ℕ). IsSingle (stop_from o s)) (sym taken)
        (closing id taken (ap (remove id) one ∙ remove_self id) (ap (λ k. k + 1) calm))
  Step-IsSingle s t (stops _ calm) (closing id taken silent waits) =
      absurd (omega (arith, calm, waits))
  Step-IsSingle s t (removed _ n waits) (off free silent calm) = absurd (omega (arith, calm, waits))
  Step-IsSingle s t (removed _ n waits) (on id taken one calm) = absurd (omega (arith, calm, waits))
  Step-IsSingle s t (removed _ n _) (closing id taken silent waits) =
      off refl silent (ap (λ k. k - 1) waits)
  Step-IsSingle s t (logs _ id slot err lines listening) h = if_intro IsSingle err h (
      Keeps-IsSingle s (on_logs parse_logs clock slot false lines s)
        (record { same_id = refl; same_listeners = refl; same_waiting = refl }) h)
  Step-IsSingle s t (batch _ txs) h =
      Keeps-IsSingle s (on_batch parse_logs clock txs s)
        (record { same_id = refl; same_listeners = refl; same_waiting = refl }) h

  Reaches-both :
      (s t : Session)
      → Reaches s t
      → IsSingle s × IsSummed s.indexer
      → IsSingle t × IsSummed t.indexer
  Reaches-both s t (done _) h = h
  Reaches-both s t (next _ m _ r e) h =
      let (single, summed) = Reaches-both s m r h in
      (Step-IsSingle m t e single, Step-IsSummed m t e summed)

  -- However starts, stops, answers and logs interleave, if stop is not called while a call of it
  -- waits, a new indexer has at most one listener, one exactly while it is subscribed and no stop
  -- waits, and its snapshot shows as total purchases, sales and volume the sums over the markets
  -- it shows.
  pub Reaches-IsSound : (s : Session) → Reaches new_session s → IsSound s
  unfolding get_snapshot market_snapshot new_session
  Reaches-IsSound s r =
      let (one, summed) = Reaches-both new_session s r (off refl refl refl, new_indexer-IsSummed) in
      record {
        single = one;
        buys_shown =
            summed.buys_summed
            ∙ sym (sum_by-map (λ (m : MarketSnapshot). m.total_buys) s.indexer.markets);
        sells_shown =
            summed.sells_summed
            ∙ sym (sum_by-map (λ (m : MarketSnapshot). m.total_sells) s.indexer.markets);
        volume_shown =
            summed.volume_summed
            ∙ sym (sum_by-map (λ (m : MarketSnapshot). m.total_volume_sol) s.indexer.markets);
      }
