-- ===== src/Backend/Table/Laws.antt =====
-- The status of a market after the recovery, by what the events say.
use text.Mathlib.Text.{◌==◌ as str_eq}
use duel_protocol.Prelude.{
  ℕ, ◌≡◌, refl, sym, ◌∙◌, ap, String, Bool, true, false, Bool-cases, Option-cases, inl, inr, Option,
  some, List, [], ◌∷◌, ◌++◌, map, if_intro, if◌then◌else◌,
}
use duel_protocol.Rpc.{Signature, Transaction, Connection, IsLookup}
use duel_protocol.Backend.Db.{
  Value, str, Statement, upsert_market, insert_trade, insert_twap_sample, placeholders_from,
  set_clauses, position,
}
use duel_protocol.Backend.Ingest.{
  Store, Database, query, set_slot, sync_single_market, on_event, handle_event, unprocessed,
  start_slot, backfill_from_slot,
}
use duel_protocol.Backend.Ingest.Rows.{
  Created, Resolved, Event, market_created, tokens_bought, tokens_sold, twap_sampled,
  market_resolved, other, Fetched, created_row, trade_row, sample_row, resolved_row, synced_row,
  get_market_status,
}
use duel_protocol.Backend.Ingest.Laws.{replay, listed, backfill_from_slot-replay}
use duel_protocol.Backend.Table.{
  inserted, set_to, Markets, IsUpserting, contents, Decides, mine, sync_statuses, statuses,
  all_statuses, latest,
}

latest-append :
    (xs ys : List Value) (o : Option Value) → latest (xs ++ ys) o ≡ latest ys (latest xs o)
latest-append [] ys o = refl
latest-append (x ∷ xs) ys o = latest-append xs ys (some x)

-- An upsert of the row of `key` that gives the status `v`.
record IsStatusOf (key : String) (v : Value) (q : Statement) : Type 0 where
  on_markets : str_eq q.table "markets" ≡ true
  keyed : inserted "pubkey" q ≡ some (str key)
  valued : inserted "status" q ≡ some v
  updated : set_to "status" q ≡ some v

created_row-IsStatusOf :
    (d : Created) → IsStatusOf d.market (str "active") (upsert_market (created_row d))
unfolding upsert_market created_row placeholders_from set_clauses position
created_row-IsStatusOf d = record { on_markets = refl; keyed = refl; valued = refl; updated = refl }

resolved_row-IsStatusOf :
    (d : Resolved) → IsStatusOf d.market (str "resolved") (upsert_market (resolved_row d))
unfolding upsert_market resolved_row placeholders_from set_clauses position
resolved_row-IsStatusOf d = record {
  on_markets = refl;
  keyed = refl;
  valued = refl;
  updated = refl;
}

synced_row-IsStatusOf :
    (now_ms : ℕ) (key : String) (found : Fetched)
    → IsStatusOf key
        (str (get_market_status now_ms found))
        (upsert_market (synced_row now_ms key found))
unfolding upsert_market synced_row placeholders_from set_clauses position
synced_row-IsStatusOf now_ms key found = record {
  on_markets = refl;
  keyed = refl;
  valued = refl;
  updated = refl;
}

module _ (m : Markets) where
  contents-append :
      (qs : List Statement) (q : Statement) (t : m.Table)
      → contents m (qs ++ q ∷ []) t ≡ m.run q (contents m qs t)
  contents-append [] q t = refl
  contents-append (x ∷ qs) q t = contents-append qs q (m.run x t)

  module _ (up : IsUpserting m) (t : m.Table) (p : String) where
    -- The status of the market after the statements of the store.
    abbrev pub status_of : Store → Option Value
    status_of s = m.status (contents m s.statements t) p

    module _ (db : Database) where
      query_elsewhere :
          (q : Statement) (s : Store)
          → str_eq q.table "markets" ≡ false
          → status_of (query db q s).0 ≡ status_of s
      unfolding query
      query_elsewhere q s away = elim (Bool-cases (db.accepts s.statements q)) [
        | inl yes' ↦
            rw (query, yes')
              (ap (λ (u : m.Table). m.status u p) (contents-append s.statements q t)
                ∙ up.elsewhere q (contents m s.statements t) p away)
        | inr no' ↦ rw (query, no') refl
      ]

      module _ (ok : Statement → Bool) (decides : Decides db ok) where
        -- An upsert whose row starts with its key and has a status.
        query_upsert :
            (q : Statement) (key : String) (v : Value) (s : Store)
            → IsStatusOf key v q
            → status_of (query db q s).0 ≡ latest (if ok q then mine p key v else []) (status_of s)
        unfolding query
        query_upsert q key v s is = elim (Bool-cases (ok q)) [
          | inr refused ↦ rw (query, decides.decided s.statements q is.on_markets, refused) refl
          | inl accepted ↦ elim (Bool-cases (str_eq key p)) [
            | inl own ↦
                rw (query, decides.decided s.statements q is.on_markets, accepted, own)
                  (ap (λ (u : m.Table). m.status u p) (contents-append s.statements q t)
                    ∙ up.own_row q (contents m s.statements t) key p v is.on_markets is.keyed
                        is.valued is.updated own)
            | inr away ↦
                rw (query, decides.decided s.statements q is.on_markets, accepted, away)
                  (ap (λ (u : m.Table). m.status u p) (contents-append s.statements q t)
                    ∙ up.other_row q (contents m s.statements t) key p is.keyed away)
          ]
        ]

        query_flag :
            (q : Statement) (s : Store) → str_eq q.table "markets" ≡ true → (query db q s).1 ≡ ok q
        unfolding query
        query_flag q s on_markets = elim (Bool-cases (ok q)) [
          | inl accepted ↦ rw (query, decides.decided s.statements q on_markets, accepted) refl
          | inr refused ↦ rw (query, decides.decided s.statements q on_markets, refused) refl
        ]

        module _ (fetch : String → Option Fetched) (now_ms : ℕ) where
          status_of-sync :
              (key : String) (s : Store)
              → status_of (sync_single_market db fetch now_ms key s)
                ≡ latest (sync_statuses ok fetch now_ms p key) (status_of s)
          unfolding sync_single_market
          status_of-sync key s = elim (Option-cases (fetch key)) [
            | inl missing ↦ rw (sync_single_market, sync_statuses, missing) refl
            | inr (found, fetched) ↦
                rw (sync_single_market, sync_statuses, fetched)
                  (query_upsert (upsert_market (synced_row now_ms key found)) key
                    (str (get_market_status now_ms found)) s
                    (synced_row-IsStatusOf now_ms key found))
          ]

          status_of-created :
              (d : Created) (s : Store)
              → let upserted = query db (upsert_market (created_row d)) s in
                status_of
                  (if upserted.1
                    then (sync_single_market db fetch now_ms d.market upserted.0, true)
                    else upserted).0
                ≡ latest (statuses ok fetch now_ms p (market_created d)) (status_of s)
          status_of-created d s =
              let q = upsert_market (created_row d) in
              let is = created_row-IsStatusOf d in
              let flag = query_flag q s is.on_markets in
              let upserted = query_upsert q d.market (str "active") s is in
              elim (Bool-cases (ok (upsert_market (created_row d)))) [
                | inr refused ↦ rw (flag, refused) (rw refused at upserted)
                | inl accepted ↦
                    let stored = (query db (upsert_market (created_row d)) s).0 in
                    let first = rw accepted at upserted in
                    rw (flag, accepted)
                      (status_of-sync d.market stored
                        ∙ ap (latest (sync_statuses ok fetch now_ms p d.market)) first
                        ∙ sym (
                            latest-append (mine p d.market (str "active"))
                              (sync_statuses ok fetch now_ms p d.market) (status_of s)))
              ]

          status_of-set_slot : (slot : ℕ) (s : Store) → status_of (set_slot db slot s) ≡ status_of s
          unfolding set_slot
          status_of-set_slot slot s = elim (Bool-cases (db.accepts_slot s.statements slot)) [
            | inl stored ↦ rw (set_slot, stored) refl
            | inr lost ↦ rw (set_slot, lost) refl
          ]

          status_of-on_event :
              (e : Event) (slot : ℕ) (s : Store)
              → status_of (on_event db fetch now_ms e slot s).0
                ≡ latest (statuses ok fetch now_ms p e) (status_of s)
          unfolding on_event insert_trade insert_twap_sample
          status_of-on_event (market_created d) slot s = status_of-created d s
          status_of-on_event (market_resolved d) slot s =
              query_upsert (upsert_market (resolved_row d)) d.market (str "resolved") s
                (resolved_row-IsStatusOf d)
          status_of-on_event (tokens_bought d) slot s =
              query_elsewhere (insert_trade (trade_row d "buy" slot)) s refl
          status_of-on_event (tokens_sold d) slot s =
              query_elsewhere (insert_trade (trade_row d "sell" slot)) s refl
          status_of-on_event (twap_sampled d) slot s =
              query_elsewhere (insert_twap_sample (sample_row d slot)) s refl
          status_of-on_event other slot s = refl

          status_of-handle_event :
              (e : Event) (slot : ℕ) (s : Store)
              → status_of (handle_event db fetch now_ms e slot s)
                ≡ latest (statuses ok fetch now_ms p e) (status_of s)
          unfolding handle_event
          status_of-handle_event e slot s =
              let after = on_event db fetch now_ms e slot s in
              if_intro
                (λ (u : Store). status_of u ≡ latest (statuses ok fetch now_ms p e) (status_of s))
                after.1 (status_of-set_slot slot after.0 ∙ status_of-on_event e slot s)
                (status_of-on_event e slot s)

          status_of-replay :
              (es : List (ℕ × Event)) (s : Store)
              → status_of (replay db fetch now_ms es s)
                ≡ latest (all_statuses ok fetch now_ms p es) (status_of s)
          status_of-replay [] s = refl
          status_of-replay ((slot, e) ∷ es) s =
              status_of-replay es (handle_event db fetch now_ms e slot s)
              ∙ ap (latest (all_statuses ok fetch now_ms p es)) (status_of-handle_event e slot s)
              ∙ sym (
                  latest-append (statuses ok fetch now_ms p e) (all_statuses ok fetch now_ms p es)
                    (status_of s))

          module _ (parse_logs : List String → List Event) (connection : Connection)
              (find : String → Option Transaction) (lookup : IsLookup connection find) where
            -- For every database that accepts a row of markets by its statement alone, every table
            -- that keeps the rows of other tables and keys and upserts its own, and every
            -- connection that answers and looks up each signature, the recovery returns, and the
            -- status of a market is afterwards the latest one that the events handled and the
            -- syncs of their creations give it in an accepted row, or the one before when none
            -- does.
            pub backfill_from_slot_status :
                (limit : ℕ) (gs : List Signature) (s : Store)
                → connection.get_signatures_for_address limit ≡ some gs
                → let due = unprocessed (start_slot s) gs in
                  let es =
                    listed parse_logs (map find (map (λ (g : Signature). g.signature) due)) in
                  (s' : Store) × (backfill_from_slot db fetch now_ms parse_logs connection limit s
                    ≡ some s')
                  × (m.status (contents m s'.statements t) p
                      ≡ latest
                          (all_statuses ok fetch now_ms p es)
                          (m.status (contents m s.statements t) p))
            backfill_from_slot_status limit gs s answered =
                let due = unprocessed (start_slot s) gs in
                let es = listed parse_logs (map find (map (λ (g : Signature). g.signature) due)) in
                (
                  replay db fetch now_ms es s,
                  backfill_from_slot-replay db fetch now_ms parse_logs connection find lookup limit
                      gs s answered,
                  status_of-replay es s,
                )
