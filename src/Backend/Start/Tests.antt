-- ===== src/Backend/Start/Tests.antt =====
-- The migrations on a database of tables with columns: the first start serves, the second exits.
use text.Mathlib.Text.{◌==◌ as str_eq}
use text.Mathlib.TextPositions.{eq_refl}
use duel_protocol.Prelude.{
  ◌≡◌, refl, sym, ◌∙◌, ap, String, Bool, true, false, Bool-cases, Option-cases, inl, inr, Option,
  none, some, some-inj, none-ne-some, List, [], ◌∷◌, ◌&&◌, ◌||◌, not, if◌then◌else◌,
}
use duel_protocol.Backend.Start.{
  Ddl, create_table, create_index, drop_column, add_column, rename_column, drop_table, seed,
  migrations, Schemas, insert, sort, ends_with, run_all, run_files, run_migrations, api, indexer,
  cranker, main,
}
use duel_protocol.Backend.Start.Laws.{subject, IsPostgres, restarts, main_starts_once}

abbrev Columns : Type 0
Columns = String → Bool

abbrev Tables : Type 0
Tables = String → Option Columns

abbrev member : List String → Columns
member [] c = false
member (x ∷ xs) c = str_eq x c || member xs c

-- The columns of the statement's table after it, if it is no error.
change : Ddl → Option Columns → Option (Option Columns)
change (create_table t cs) none = some (some (member cs))
change (create_table t cs) (some cols) = some (some cols)
change (create_index t i) none = none
change (create_index t i) (some cols) = some (some cols)
change (drop_column t c) none = none
change (drop_column t c) (some cols) = some (some (λ x. not (str_eq x c) && cols x))
change (add_column t c) none = none
change (add_column t c) (some cols) = some (some (λ x. str_eq x c || cols x))
change (rename_column t a b) none = none
change (rename_column t a b) (some cols) =
    if cols a && not (cols b)
    then some (some (λ x. str_eq b x || (not (str_eq a x) && cols x)))
    else none
change (drop_table t) cols = some none
change (seed t) none = none
change (seed t) (some cols) = some (some cols)

abbrev update : Tables → String → Option Columns → Tables
update s t v p = if str_eq t p then v else s p

abbrev step : Ddl → Tables → Option Tables
step q s = elim (change q (s (subject q))) as (λ o. Option Tables) [
  | none ↦ none
  | some v ↦ some (update s (subject q) v)
]

abbrev has : Option Columns → Bool
has none = false
has (some cols) = true

abbrev column : Option Columns → String → Bool
column none c = false
column (some cols) c = cols c

abbrev tables : Schemas
tables = record {
  Schema = Tables;
  run = step;
  has_table = λ s t. has (s t);
  has_column = λ s t c. column (s t) c;
}

-- A step writes what `change` gives.
step_lem :
    (q : Ddl) (s s' : Tables)
    → step q s ≡ some s'
    → (v : Option Columns) × (change q (s (subject q)) ≡ some v) × (s' ≡ update s (subject q) v)
step_lem q s s' ran = elim (Option-cases (change q (s (subject q)))) [
  | inl refused ↦ absurd (none-ne-some (rw (step, refused) at ran))
  | inr (v, changed) ↦ (v, changed, sym (some-inj (rw (step, changed) at ran)))
]

own : (s : Tables) (t : String) (v : Option Columns) → update s t v t ≡ v
own s t v = rw (eq_refl t) refl

others :
    (q : Ddl) (s s' : Tables) (t c : String)
    → str_eq (subject q) t ≡ false
    → step q s ≡ some s'
    → (has (s' t) ≡ has (s t)) × (column (s' t) c ≡ column (s t) c)
others q s s' t c away ran =
    let (v, changed, written) = step_lem q s s' ran in
    let same : s' t ≡ s t = ap (λ (u : Tables). u t) written ∙ rw away refl in
    (ap has same, ap (λ o. column o c) same)

-- What `change` leaves, at the table itself.
at_table :
    (q : Ddl) (s s' : Tables)
    → step q s ≡ some s'
    → change q (s (subject q)) ≡ some (s' (subject q))
at_table q s s' ran =
    let (v, changed, written) = step_lem q s s' ran in
    let now : s' (subject q) ≡ v =
      ap (λ (u : Tables). u (subject q)) written ∙ own s (subject q) v in
    rw now changed

created_has :
    (t : String) (cs : List String) (o o' : Option Columns)
    → change (create_table t cs) o ≡ some o'
    → has o' ≡ true
unfolding change
created_has t cs none o' e = ap has (sym (some-inj e))
created_has t cs (some cols) o' e = ap has (sym (some-inj e))

create_again :
    (t : String) (cs : List String) (o o' : Option Columns) (c : String)
    → has o ≡ true
    → change (create_table t cs) o ≡ some o'
    → column o' c ≡ column o c
unfolding change
create_again t cs none o' c h e = cc
create_again t cs (some cols) o' c h e = ap (λ x. column x c) (sym (some-inj e))

indexed :
    (t i : String) (o o' : Option Columns) (c : String)
    → change (create_index t i) o ≡ some o'
    → (has o' ≡ has o) × (column o' c ≡ column o c)
unfolding change
indexed t i none o' c e = absurd (none-ne-some e)
indexed t i (some cols) o' c e =
    (ap has (sym (some-inj e)), ap (λ x. column x c) (sym (some-inj e)))

rename_missing :
    (t a b : String) (o : Option Columns)
    → column o a ≡ false
    → change (rename_column t a b) o ≡ none
unfolding change
rename_missing t a b none h = refl
rename_missing t a b (some cols) h = rw h refl

renamed :
    (t a b : String) (o o' : Option Columns)
    → str_eq b a ≡ false
    → change (rename_column t a b) o ≡ some o'
    → (has o' ≡ has o) × (column o' a ≡ false)
unfolding change
renamed t a b none o' other e = absurd (none-ne-some e)
renamed t a b (some cols) o' other e = elim (Bool-cases (cols a && not (cols b))) [
  | inr clash ↦ absurd (none-ne-some (rw clash at e))
  | inl moved ↦
      let now = sym (some-inj (rw moved at e)) in
      (ap has now, ap (λ x. column x a) now ∙ rw (other, eq_refl a) refl)
]

tables-IsPostgres : IsPostgres tables
tables-IsPostgres = record {
  others = others;
  created = λ t cs s s' ran. created_has t cs (s t) (s' t) (at_table (create_table t cs) s s' ran);
  create_again = λ t cs s s' c table ran.
      create_again t cs (s t) (s' t) c table (at_table (create_table t cs) s s' ran);
  indexed = λ t i s s' c ran. indexed t i (s t) (s' t) c (at_table (create_index t i) s s' ran);
  rename_missing = λ t a b s missing. rw (step, rename_missing t a b (s t) missing) refl;
  renamed = λ t a b s s' other ran.
      renamed t a b (s t) (s' t) other (at_table (rename_column t a b) s s' ran);
}

abbrev empty : Tables
empty t = none

-- The cranker starts on a new database; the indexer then exits, and the API after it.
main_starts_once_example :
    let later = main tables api migrations (
      restarts tables tables-IsPostgres
        (indexer ∷ [])
        (main tables cranker migrations empty).schema) in
    (later.exits ≡ true) × (later.actions ≡ [])
unfolding main run_migrations run_files run_all sort insert ends_with change
main_starts_once_example =
    main_starts_once tables tables-IsPostgres cranker api (indexer ∷ []) empty refl
