-- ===== src/Backend/Live/Laws.antt =====
-- What the listener writes of trades and samples, however its handlers interleave.
use duel_protocol.Prelude.{
  ℕ, ◌+◌, ◌≤◌, ◌≡◌, refl, String, Bool, true, false, Option, none, some, List, [], ◌∷◌, ◌++◌, map,
  sum_by, arith, if◌then◌else◌,
}
use duel_protocol.Backend.Db.{Value, Statement, upsert_market, insert_trade, insert_twap_sample}
use duel_protocol.Backend.Ingest.{Store, Database, query, set_slot}
use duel_protocol.Backend.Ingest.Cursor.{IsOpen}
use duel_protocol.Backend.Ingest.Rows.{
  Event, market_created, tokens_bought, tokens_sold, twap_sampled, market_resolved, other, Fetched,
  trade_row, sample_row, synced_row,
}
use duel_protocol.Backend.Live.{
  Task, writing, creating, fetching, syncing, storing, Live, begin, heard, on_logs, resume,
  answered,
}
use duel_protocol.Backend.Live.Steps.{Hears, starts, hears, answers}

-- The row of a trade or of a sample that an event stands for.
abbrev pub rows : ℕ × Event → List Statement
rows (slot, tokens_bought d) = insert_trade (trade_row d "buy" slot) ∷ []
rows (slot, tokens_sold d) = insert_trade (trade_row d "sell" slot) ∷ []
rows (slot, twap_sampled d) = insert_twap_sample (sample_row d slot) ∷ []
rows (slot, market_created d) = []
rows (slot, market_resolved d) = []
rows (slot, other) = []

sum_by-append :
    {A : Type 0} (f : A → ℕ) (xs ys : List A) → sum_by f (xs ++ ys) ≡ sum_by f xs + sum_by f ys
sum_by-append f [] ys = omega arith
sum_by-append f (x ∷ xs) ys = omega (arith, sum_by-append f xs ys)

-- A measure of statements that is 0 on rows of markets, such as whether it is a certain trade.
module _ (w : Statement → ℕ)
    (silent : (fields : List (String × Value)) → w (upsert_market fields) ≡ 0) where
  -- The row that a task waits for.
  load : Task → ℕ
  load (writing q slot) = w q
  load (creating market q slot) = w q
  load (fetching market slot) = 0
  load (syncing q slot) = w q
  load (storing slot) = 0

  loads : Option Task → ℕ
  unfolding load
  loads none = 0
  loads (some t) = load t

  abbrev pub heard_by : List (ℕ × Event) → ℕ
  heard_by es = sum_by (λ e. sum_by w (rows e)) es

  abbrev written : Store → ℕ
  written s = sum_by w s.statements

  load-begin : (e : ℕ × Event) → load (begin e) ≡ sum_by w (rows e)
  unfolding load begin
  load-begin (slot, market_created d) = silent _
  load-begin (slot, tokens_bought d) = omega arith
  load-begin (slot, tokens_sold d) = omega arith
  load-begin (slot, twap_sampled d) = omega arith
  load-begin (slot, market_resolved d) = silent _
  load-begin (slot, other) = refl

  sum_by-begin : (es : List (ℕ × Event)) → sum_by load (map begin es) ≡ heard_by es
  sum_by-begin [] = refl
  sum_by-begin (e ∷ es) = omega (arith, load-begin e, sum_by-begin es)

  loads_if : (b : Bool) (t : Task) → load t ≡ 0 → loads (if b then some t else none) ≡ 0
  unfolding loads
  loads_if true t e = e
  loads_if false t e = refl

  total : Live → ℕ
  total l = written l.store + sum_by load l.tasks

  sum_by-loads :
      (o : Option Task)
      → sum_by load (elim o as (λ x. List Task) [ none ↦ [] | some u ↦ u ∷ [] ]) ≡ loads o
  unfolding loads
  sum_by-loads none = refl
  sum_by-loads (some t) = omega arith

  module _ (parse_logs : List String → List Event) where
    total-on_logs :
        (err : Bool) (logs : List String) (slot : ℕ) (l : Live)
        → total (on_logs parse_logs err logs slot l)
          ≡ total l + heard_by (heard parse_logs err logs slot)
    unfolding on_logs total
    total-on_logs err logs slot l =
        let es = heard parse_logs err logs slot in
        omega (arith, sum_by-append load l.tasks (map begin es), sum_by-begin es)

  module _ (db : Database) where
    written-set_slot : (slot : ℕ) (s : Store) → written (set_slot db slot s) ≡ written s
    unfolding set_slot
    written-set_slot slot s = ground arith

    query_le : (q : Statement) (s : Store) → written (query db q s).0 ≤ written s + w q
    unfolding query
    query_le q s = ground (arith, sum_by-append w s.statements (q ∷ []))

    resume_le :
        (now_ms : ℕ) (found : Option Fetched) (t : Task) (s : Store)
        → let next = resume db now_ms found t s in
          written next.0 + loads next.1 ≤ written s + load t
    unfolding resume loads load
    resume_le now_ms found (writing q slot) s =
        omega (arith, query_le q s, loads_if (query db q s).1 (storing slot) refl)
    resume_le now_ms found (creating market q slot) s =
        omega (arith, query_le q s, loads_if (query db q s).1 (fetching market slot) refl)
    resume_le now_ms none (fetching market slot) s = omega arith
    resume_le now_ms (some f) (fetching market slot) s =
        omega (arith, silent (synced_row now_ms market f))
    resume_le now_ms found (syncing q slot) s = omega (arith, query_le q s)
    resume_le now_ms found (storing slot) s = omega (arith, written-set_slot slot s)

    -- What an answer changes of the total is what it changes for its task.
    total-answered :
        (now_ms : ℕ) (found : Option Fetched) (before : List Task) (t : Task) (after : List Task)
        (s : Store)
        → let next = resume db now_ms found t s in
          total (answered db now_ms found before t after s)
          ≡ written next.0 + loads next.1 + sum_by load before + sum_by load after
    unfolding answered total
    total-answered now_ms found before t after s =
        let o = (resume db now_ms found t s).1 in
        let next = elim o as (λ x. List Task) [ none ↦ [] | some u ↦ u ∷ [] ] in
        omega (
          arith,
          sum_by-append load before next,
          sum_by-append load (before ++ next) after,
          sum_by-loads o,
        )

    total_split :
        (l : Live) (before : List Task) (t : Task) (after : List Task)
        → l.tasks ≡ before ++ t ∷ after
        → total l ≡ written l.store + load t + sum_by load before + sum_by load after
    unfolding total
    total_split l before t after e = rw e (omega (arith, sum_by-append load before (t ∷ after)))

    module _ (parse_logs : List String → List Event) where
      total_le :
          (l m : Live) (es : List (ℕ × Event))
          → Hears db parse_logs l es m
          → total m ≤ total l + heard_by es
      total_le l _ _ (starts _) = omega arith
      total_le l _ _ (hears _ m es err logs slot r) = omega (
        arith,
        total_le l m es r,
        total-on_logs parse_logs err logs slot m,
        sum_by-append (λ e. sum_by w (rows e)) es (heard parse_logs err logs slot),
      )
      total_le l _ _ (answers _ m es now_ms found before t after r at) = omega (
        arith,
        total_le l m es r,
        total_split m before t after at,
        total-answered now_ms found before t after m.store,
        resume_le now_ms found t m.store,
      )

      -- For every database, however the handlers of live events interleave and wherever the run
      -- ends, by every measure of statements that is 0 on rows of markets, what is written is at
      -- most the trades and samples of the events heard, each once.
      pub none_heard_twice :
          (l m : Live) (es : List (ℕ × Event))
          → l.tasks ≡ []
          → Hears db parse_logs l es m
          → sum_by w m.store.statements ≤ sum_by w l.store.statements + heard_by es
      unfolding total
      none_heard_twice l m es idle r =
          let empty : sum_by load l.tasks ≡ 0 = rw idle refl in
          omega (arith, empty, total_le l m es r)

    module _ (open_db : IsOpen db) where
      query_eq : (q : Statement) (s : Store) → written (query db q s).0 ≡ written s + w q
      unfolding query
      query_eq q s =
          rw (open_db.all_accepted s.statements q)
            (omega (arith, sum_by-append w s.statements (q ∷ [])))

      resume_eq :
          (now_ms : ℕ) (found : Option Fetched) (t : Task) (s : Store)
          → let next = resume db now_ms found t s in
            written next.0 + loads next.1 ≡ written s + load t
      unfolding resume loads load
      resume_eq now_ms found (writing q slot) s =
          omega (arith, query_eq q s, loads_if (query db q s).1 (storing slot) refl)
      resume_eq now_ms found (creating market q slot) s =
          omega (arith, query_eq q s, loads_if (query db q s).1 (fetching market slot) refl)
      resume_eq now_ms none (fetching market slot) s = omega arith
      resume_eq now_ms (some f) (fetching market slot) s =
          omega (arith, silent (synced_row now_ms market f))
      resume_eq now_ms found (syncing q slot) s = omega (arith, query_eq q s)
      resume_eq now_ms found (storing slot) s = omega (arith, written-set_slot slot s)

      module _ (parse_logs : List String → List Event) where
        total_eq :
            (l m : Live) (es : List (ℕ × Event))
            → Hears db parse_logs l es m
            → total m ≡ total l + heard_by es
        total_eq l _ _ (starts _) = omega arith
        total_eq l _ _ (hears _ m es err logs slot r) = omega (
          arith,
          total_eq l m es r,
          total-on_logs parse_logs err logs slot m,
          sum_by-append (λ e. sum_by w (rows e)) es (heard parse_logs err logs slot),
        )
        total_eq l _ _ (answers _ m es now_ms found before t after r at) = omega (
          arith,
          total_eq l m es r,
          total_split m before t after at,
          total-answered now_ms found before t after m.store,
          resume_eq now_ms found t m.store,
        )

        -- However the handlers of live events interleave at their awaits, if the database accepts
        -- all rows and slots and no handler waits at the start nor at the end, then by every
        -- measure of statements that is 0 on rows of markets, what is written in between is the
        -- trades and samples of the events heard, each once.
        pub each_heard_once :
            (l m : Live) (es : List (ℕ × Event))
            → l.tasks ≡ []
            → m.tasks ≡ []
            → Hears db parse_logs l es m
            → sum_by w m.store.statements ≡ sum_by w l.store.statements + heard_by es
        unfolding total
        each_heard_once l m es idle ended r =
            let empty : sum_by load l.tasks ≡ 0 = rw idle refl in
            let over : sum_by load m.tasks ≡ 0 = rw ended refl in
            omega (arith, empty, over, total_eq l m es r)
