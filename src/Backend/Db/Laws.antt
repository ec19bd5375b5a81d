-- ===== src/Backend/Db/Laws.antt =====
-- The placeholders of a statement stand for the values of the row that it is built from.
use text.Mathlib.Text.{◌==◌ as str_eq}
use duel_protocol.Prelude.{
  ℕ, zero, suc, ◌+◌, ◌≡◌, refl, sym, ◌∙◌, ap, String, false, Option, none, some, List, [], ◌∷◌,
  ◌++◌, map, All, length, length-append, arith, ◌==◌, ==→eq, if◌then◌else◌, Bool-cases, inl, inr,
}
use duel_protocol.Backend.Db.{
  Value, Row, keys, values, position, placeholders_from, set_clauses, upsert_market,
}

-- The value that `$n` stands for.
abbrev pub value_at : ℕ → List Value → Option Value
value_at zero xs = none
value_at (suc n) [] = none
value_at (suc zero) (x ∷ xs) = some x
value_at (suc (suc n)) (x ∷ xs) = value_at (suc n) xs

abbrev pub lookup : String → Row → Option Value
lookup k [] = none
lookup k ((name, v) ∷ rest) = if str_eq name k then some v else lookup k rest

value_at-cons :
    (n : ℕ) (x : Value) (xs : List Value)
    → (n == 0) ≡ false
    → value_at (n + 1) (x ∷ xs) ≡ value_at n xs
value_at-cons zero x xs h = absurd (ground arith)
value_at-cons (suc n) x xs h =
    let bigger : suc n + 1 ≡ suc (suc n) = omega arith in ap (λ (k : ℕ). value_at k (x ∷ xs)) bigger

value_at-position : (k : String) (r : Row) → value_at (position k (keys r)) (values r) ≡ lookup k r
unfolding position
value_at-position k [] = refl
value_at-position k ((name, v) ∷ rest) = elim (Bool-cases (str_eq name k)) [
  | inl here ↦ rw here refl
  | inr away ↦ elim (Bool-cases (position k (keys rest) == 0)) [
    | inl absent ↦
        let nowhere : position k (keys rest) ≡ 0 = ==→eq _ _ absent in
        rw (away, absent)
          (ap (λ (n : ℕ). value_at n (values rest)) (sym nowhere) ∙ value_at-position k rest)
    | inr there ↦
        rw (away, there)
          (value_at-cons (position k (keys rest)) v (values rest) there ∙ value_at-position k rest)
  ]
]

-- A clause sets a column other than the key to the row's value for it.
abbrev pub SetsColumn : Row → String × ℕ → Type 0
SetsColumn r (k, n) = (str_eq k "pubkey" ≡ false) × (value_at n (values r) ≡ lookup k r)

set_clauses_lem : (r : Row) (ks : List String) → All (SetsColumn r) (set_clauses (keys r) ks)
unfolding set_clauses
set_clauses_lem r [] = tt
set_clauses_lem r (k ∷ ks) = elim (Bool-cases (str_eq k "pubkey")) [
  | inl key ↦ rw key (set_clauses_lem r ks)
  | inr other ↦ rw other ((other, value_at-position k r), set_clauses_lem r ks)
]

-- The columns with the values that their placeholders stand for.
abbrev pub bound : List String → List ℕ → List Value → List (String × Option Value)
bound [] ns vs = []
bound (k ∷ ks) [] vs = []
bound (k ∷ ks) (n ∷ ns) vs = (k, value_at n vs) ∷ bound ks ns vs

abbrev pub given : String × Value → String × Option Value
given (k, v) = (k, some v)

value_at-append :
    (pre : List Value) (v : Value) (vs : List Value)
    → value_at (length pre + 1) (pre ++ v ∷ vs) ≡ some v
value_at-append [] v vs = refl
value_at-append (x ∷ pre) v vs =
    let longer : length (x ∷ pre) + 1 ≡ length pre + 1 + 1 = omega arith in
    ap (λ (k : ℕ). value_at k (x ∷ pre ++ v ∷ vs)) longer
    ∙ value_at-cons (length pre + 1) x (pre ++ v ∷ vs) (ground arith)
    ∙ value_at-append pre v vs

append_assoc : (xs : List Value) (y : Value) (zs : List Value) → (xs ++ y ∷ []) ++ zs ≡ xs ++ y ∷ zs
append_assoc [] y zs = refl
append_assoc (x ∷ xs) y zs = ap (λ rest. x ∷ rest) (append_assoc xs y zs)

bound_from :
    (pre : List Value) (r : Row) (n : ℕ)
    → n ≡ length pre + 1
    → bound (keys r) (placeholders_from n (keys r)) (pre ++ values r) ≡ map given r
unfolding placeholders_from
bound_from pre [] n h = refl
bound_from pre ((k, v) ∷ r) n h =
    let rest = bound_from (pre ++ v ∷ []) r (n + 1) (omega (arith, length-append pre (v ∷ []))) in
    let same =
      ap (λ vs. bound (keys r) (placeholders_from (n + 1) (keys r)) vs)
        (append_assoc pre v (values r)) in
    let first : value_at n (pre ++ v ∷ values r) ≡ some v =
      ap (λ (m : ℕ). value_at m (pre ++ v ∷ values r)) h ∙ value_at-append pre v (values r) in
    rw first (ap (λ es. (k, some v) ∷ es) (sym same ∙ rest))

module _ (r : Row) where
  -- For every row the statement of upsertMarket inserts each column with its value, and each
  -- clause of its update sets a column other than the key to the value of the row for that column.
  pub upsert_market-SetsColumn :
      let s = upsert_market r in
      (bound s.columns s.placeholders s.parameters ≡ map given r) × All (SetsColumn r) s.sets
  unfolding upsert_market
  upsert_market-SetsColumn = (bound_from [] r 1 refl, set_clauses_lem r (keys r))
