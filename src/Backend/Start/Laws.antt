-- ===== src/Backend/Start/Laws.antt =====
-- The migrations run once: after that no service starts.
use mathlib.Core.Path.{subst}
use text.Mathlib.Text.{◌==◌ as str_eq}
use text.Mathlib.TextEquality.{eq_iff}
use duel_protocol.Prelude.{
  arith, ◌++◌, ◌≡◌, refl, sym, ◌∙◌, ap, String, Bool, true, false, Bool-cases, Option-cases, inl,
  inr, none, some, some-inj, none-ne-some, List, [], ◌∷◌, ◌&&◌, not,
}
use duel_protocol.Backend.Start.{
  Ddl, create_table, create_index, drop_column, add_column, rename_column, drop_table, seed,
  make_markets, trades_columns, make_others, migration_001, change_markets, migration_002,
  migrations, insert, sort, ends_with, Schemas, run_all, run_files, run_migrations, Program, main,
}

-- The table that a statement may change the columns of.
abbrev pub subject : Ddl → String
subject (create_table t cs) = t
subject (create_index t c) = t
subject (drop_column t c) = t
subject (add_column t c) = t
subject (rename_column t a b) = t
subject (drop_table t) = t
subject (seed t) = t

-- What PostgreSQL documents: a statement leaves the other tables alone, `IF NOT EXISTS` a table that
-- is there, an index and an insertion the columns; and a column that is renamed must be there, and
-- is not there afterwards.
pub record IsPostgres (sql : Schemas) : Type 0 where
  pub others :
      (q : Ddl) (s s' : sql.Schema) (t c : String)
      → str_eq (subject q) t ≡ false
      → sql.run q s ≡ some s'
      → (sql.has_table s' t ≡ sql.has_table s t) × (sql.has_column s' t c ≡ sql.has_column s t c)
  pub created :
      (t : String) (cs : List String) (s s' : sql.Schema)
      → sql.run (create_table t cs) s ≡ some s'
      → sql.has_table s' t ≡ true
  pub create_again :
      (t : String) (cs : List String) (s s' : sql.Schema) (c : String)
      → sql.has_table s t ≡ true
      → sql.run (create_table t cs) s ≡ some s'
      → sql.has_column s' t c ≡ sql.has_column s t c
  pub indexed :
      (t i : String) (s s' : sql.Schema) (c : String)
      → sql.run (create_index t i) s ≡ some s'
      → (sql.has_table s' t ≡ sql.has_table s t) × (sql.has_column s' t c ≡ sql.has_column s t c)
  pub rename_missing :
      (t a b : String) (s : sql.Schema)
      → sql.has_column s t a ≡ false
      → sql.run (rename_column t a b) s ≡ none
  pub renamed :
      (t a b : String) (s s' : sql.Schema)
      → str_eq b a ≡ false
      → sql.run (rename_column t a b) s ≡ some s'
      → (sql.has_table s' t ≡ sql.has_table s t) × (sql.has_column s' t a ≡ false)

module _ (sql : Schemas) (pg : IsPostgres sql) where
  -- The table of trades is there, and its old column is not.
  pub record IsMigrated (s : sql.Schema) : Type 0 where
    pub table : sql.has_table s "trades" ≡ true
    pub renamed : sql.has_column s "trades" "penalty_applied" ≡ false

  -- A statement that keeps the table of trades and its columns.
  abbrev kept : Ddl → Bool
  kept (create_table t cs) = true
  kept (create_index t i) = true
  kept q = not (str_eq (subject q) "trades")

  abbrev Same : sql.Schema → sql.Schema → Type 0
  Same s s' =
      (sql.has_table s' "trades" ≡ true)
      × (sql.has_column s' "trades" "penalty_applied" ≡ sql.has_column s "trades" "penalty_applied")

  others-Same :
      (q : Ddl) (s s' : sql.Schema)
      → str_eq (subject q) "trades" ≡ false
      → sql.run q s ≡ some s'
      → sql.has_table s "trades" ≡ true
      → Same s s'
  others-Same q s s' away ran table =
      let same = pg.others q s s' "trades" "penalty_applied" away ran in (same.0 ∙ table, same.1)

  not-false : (b : Bool) → not b ≡ true → b ≡ false
  not-false b e = ground arith

  run-Same :
      (q : Ddl) (s s' : sql.Schema)
      → kept q ≡ true
      → sql.run q s ≡ some s'
      → sql.has_table s "trades" ≡ true
      → Same s s'
  run-Same (create_table t cs) s s' k ran table = elim (Bool-cases (str_eq t "trades")) [
    | inr away ↦ others-Same (create_table t cs) s s' away ran table
    | inl here ↦
        let at : t ≡ "trades" = (eq_iff t "trades").0 here in
        let ran' : sql.run (create_table "trades" cs) s ≡ some s' = rw at at ran in
        (
          pg.created "trades" cs s s' ran',
          pg.create_again "trades" cs s s' "penalty_applied" table ran',
        )
  ]
  run-Same (create_index t i) s s' k ran table = elim (Bool-cases (str_eq t "trades")) [
    | inr away ↦ others-Same (create_index t i) s s' away ran table
    | inl here ↦
        let at : t ≡ "trades" = (eq_iff t "trades").0 here in
        let ran' : sql.run (create_index "trades" i) s ≡ some s' = rw at at ran in
        let same = pg.indexed "trades" i s s' "penalty_applied" ran' in (same.0 ∙ table, same.1)
  ]
  run-Same (drop_column t c) s s' k ran table =
      others-Same (drop_column t c) s s' (not-false _ k) ran table
  run-Same (add_column t c) s s' k ran table =
      others-Same (add_column t c) s s' (not-false _ k) ran table
  run-Same (rename_column t a b) s s' k ran table =
      others-Same (rename_column t a b) s s' (not-false _ k) ran table
  run-Same (drop_table t) s s' k ran table =
      others-Same (drop_table t) s s' (not-false _ k) ran table
  run-Same (seed t) s s' k ran table = others-Same (seed t) s s' (not-false _ k) ran table

  abbrev all_kept : List Ddl → Bool
  all_kept [] = true
  all_kept (q ∷ qs) = kept q && all_kept qs

  run_all-cons :
      (q : Ddl) (qs : List Ddl) (s s' : sql.Schema)
      → run_all sql (q ∷ qs) s ≡ some s'
      → (t : sql.Schema) × (sql.run q s ≡ some t) × (run_all sql qs t ≡ some s')
  unfolding run_all
  run_all-cons q qs s s' ran = elim (Option-cases (sql.run q s)) [
    | inl refused ↦ absurd (none-ne-some (rw (run_all, refused) at ran))
    | inr (t, next) ↦ (t, next, rw (run_all, next) at ran)
  ]

  run_all-append :
      (qs rs : List Ddl) (s s' : sql.Schema)
      → run_all sql (qs ++ rs) s ≡ some s'
      → (t : sql.Schema) × (run_all sql qs s ≡ some t) × (run_all sql rs t ≡ some s')
  unfolding run_all
  run_all-append [] rs s s' ran = (s, refl, ran)
  run_all-append (q ∷ qs) rs s s' ran =
      let (u, first, later) = run_all-cons q (qs ++ rs) s s' ran in
      let (t, mid, last) = run_all-append qs rs u s' later in (t, rw (run_all, first) mid, last)

  run_all-Same :
      (qs : List Ddl) (s s' : sql.Schema)
      → all_kept qs ≡ true
      → run_all sql qs s ≡ some s'
      → sql.has_table s "trades" ≡ true
      → Same s s'
  unfolding run_all
  run_all-Same [] s s' k ran table = subst (Same s) (some-inj ran) (table, refl)
  run_all-Same (q ∷ qs) s s' k ran table =
      let (t, first, later) = run_all-cons q qs s s' ran in
      let here = run-Same q s t (ground arith) first table in
      let rest = run_all-Same qs t s' (ground arith) later here.0 in (rest.0, rest.1 ∙ here.1)

  -- The first file leaves a table of trades, and the second, where it runs, the column renamed.
  initial_makes :
      (s s' : sql.Schema) → run_all sql migration_001 s ≡ some s' → sql.has_table s' "trades" ≡ true
  initial_makes s s' ran =
      let (t, first, later) =
        run_all-append make_markets (create_table "trades" trades_columns ∷ make_others) s s' ran in
      let (u, made, last) = run_all-cons _ make_others t s' later in
      (run_all-Same make_others u s' refl last (pg.created "trades" trades_columns t u made)).0

  refactor_migrates :
      (s s' : sql.Schema)
      → sql.has_table s "trades" ≡ true
      → run_all sql migration_002 s ≡ some s'
      → IsMigrated s'
  refactor_migrates s s' table ran =
      let rename = rename_column "trades" "penalty_applied" "fee_amount" in
      let (t, first, later) =
        run_all-append change_markets (rename ∷ drop_table "graduations" ∷ []) s s' ran in
      let (u, moved, last) = run_all-cons rename (drop_table "graduations" ∷ []) t s' later in
      let before = run_all-Same change_markets s t refl first table in
      let after = pg.renamed "trades" "penalty_applied" "fee_amount" t u refl moved in
      let end = run_all-Same (drop_table "graduations" ∷ []) u s' refl last (after.0 ∙ before.0) in
      record { table = end.0; renamed = end.1 ∙ after.1 }

  refactor_refused : (s : sql.Schema) → IsMigrated s → run_all sql migration_002 s ≡ none
  refactor_refused s m = elim (Option-cases (run_all sql migration_002 s)) [
    | inl refused ↦ refused
    | inr (s', ran) ↦
        let rename = rename_column "trades" "penalty_applied" "fee_amount" in
        let (t, first, later) =
          run_all-append change_markets (rename ∷ drop_table "graduations" ∷ []) s s' ran in
        let (u, moved, last) = run_all-cons rename (drop_table "graduations" ∷ []) t s' later in
        let before = run_all-Same change_markets s t refl first m.table in
        let missing =
          pg.rename_missing "trades" "penalty_applied" "fee_amount" t (before.1 ∙ m.renamed) in
        absurd (none-ne-some (sym missing ∙ moved))
  ]

  -- A start with the migrations as `readdir` may list them.
  start_migrates :
      (s s' : sql.Schema) → run_migrations sql migrations s ≡ (s', true) → IsMigrated s'
  unfolding run_migrations run_files sort insert ends_with
  start_migrates s s' ran = elim (Option-cases (run_all sql migration_001 s)) [
    | inl refused ↦
        let lost = rw (run_migrations, run_files, refused) at ran in
        cc (ap (λ (r : sql.Schema × Bool). r.1) lost)
    | inr (t, first) ↦ elim (Option-cases (run_all sql migration_002 t)) [
      | inl refused ↦
          let lost = rw (run_migrations, run_files, first, refused) at ran in
          cc (ap (λ (r : sql.Schema × Bool). r.1) lost)
      | inr (u, second) ↦
          let done = rw (run_migrations, run_files, first, second) at ran in
          subst IsMigrated (ap (λ (r : sql.Schema × Bool). r.0) done)
            (refactor_migrates t u (initial_makes s t first) second)
    ]
  ]

  start_refused :
      (s : sql.Schema)
      → IsMigrated s
      → ((run_migrations sql migrations s).1 ≡ false)
        × IsMigrated (run_migrations sql migrations s).0
  unfolding run_migrations run_files sort insert ends_with
  start_refused s m = elim (Option-cases (run_all sql migration_001 s)) [
    | inl refused ↦ rw (run_files, refused) (refl, m)
    | inr (t, first) ↦
        let same = run_all-Same migration_001 s t refl first m.table in
        let still : IsMigrated t = record { table = same.0; renamed = same.1 ∙ m.renamed } in
        rw (run_files, first, refactor_refused t still) (refl, still)
  ]

  -- The schema after further starts.
  abbrev pub restarts : List Program → sql.Schema → sql.Schema
  restarts [] s = s
  restarts (p ∷ ps) s = restarts ps (main sql p migrations s).schema

  restarts-IsMigrated :
      (ps : List Program) (s : sql.Schema) → IsMigrated s → IsMigrated (restarts ps s)
  unfolding main
  restarts-IsMigrated [] s m = m
  restarts-IsMigrated (p ∷ ps) s m =
      restarts-IsMigrated ps (main sql p migrations s).schema (start_refused s m).1

  -- On every database with the documented behaviour of the statements of the migrations, once one
  -- program has started with the files of the repository, every later start of any program, after
  -- any further starts, does nothing after the migrations and exits with an error.
  pub main_starts_once :
      (first last : Program) (between : List Program) (s : sql.Schema)
      → (main sql first migrations s).exits ≡ false
      → let later =
          main sql last migrations (restarts between (main sql first migrations s).schema) in
        (later.exits ≡ true) × (later.actions ≡ [])
  unfolding main
  main_starts_once first last between s started =
      let ran = run_migrations sql migrations s in
      let done : ran.1 ≡ true = ground arith in
      let made = start_migrates s ran.0 (ap (λ (b : Bool). (ran.0, b)) done) in
      let refused =
        start_refused (restarts between ran.0) (restarts-IsMigrated between ran.0 made) in
      rw refused.0 (refl, refl)
