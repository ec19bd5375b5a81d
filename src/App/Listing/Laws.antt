-- ===== src/App/Listing/Laws.antt =====
-- The list of markets in order.
use mathlib.Core.List.{Permᴰ}
use duel_protocol.Prelude.{
  ℕ, ◌≤◌, ◌≡◌, refl, true, false, Bool-cases, inl, inr, List, [], ◌∷◌, All, arith, if_intro,
}
use duel_protocol.App.{MarketPhase, active, twap, resolved}
use duel_protocol.App.Listing.{
  not_after, MarketEntry, parse_markets, insert_sorted, sort_parsed, fetch_from_chain,
}

-- The first of two entries belongs before the second: active markets before those in their window
-- and both before resolved ones, and of two with the same status the one with the later deadline,
-- or either when the deadlines are the same.
abbrev pub Precedes : MarketPhase → ℕ → MarketPhase → ℕ → Type 0
Precedes active d active e = e ≤ d
Precedes active d twap e = Unit
Precedes active d resolved e = Unit
Precedes twap d active e = ⊥
Precedes twap d twap e = e ≤ d
Precedes twap d resolved e = Unit
Precedes resolved d active e = ⊥
Precedes resolved d twap e = ⊥
Precedes resolved d resolved e = e ≤ d

not_after-Precedes : (p q : MarketPhase) (d e : ℕ) → not_after p d q e ≡ true → Precedes p d q e
unfolding not_after
not_after-Precedes active active d e h = ground arith
not_after-Precedes active twap d e h = tt
not_after-Precedes active resolved d e h = tt
not_after-Precedes twap active d e h = cc
not_after-Precedes twap twap d e h = ground arith
not_after-Precedes twap resolved d e h = tt
not_after-Precedes resolved active d e h = cc
not_after-Precedes resolved twap d e h = cc
not_after-Precedes resolved resolved d e h = ground arith

after-Precedes : (p q : MarketPhase) (d e : ℕ) → not_after p d q e ≡ false → Precedes q e p d
unfolding not_after
after-Precedes active active d e h = ground arith
after-Precedes active twap d e h = cc
after-Precedes active resolved d e h = cc
after-Precedes twap active d e h = tt
after-Precedes twap twap d e h = ground arith
after-Precedes twap resolved d e h = cc
after-Precedes resolved active d e h = tt
after-Precedes resolved twap d e h = tt
after-Precedes resolved resolved d e h = ground arith

Precedes-trans :
    (p q r : MarketPhase) (d e f : ℕ) → Precedes p d q e → Precedes q e r f → Precedes p d r f
Precedes-trans active active active d e f h k = omega (arith, h, k)
Precedes-trans active active twap d e f h k = tt
Precedes-trans active active resolved d e f h k = tt
Precedes-trans active twap active d e f h k = absurd k
Precedes-trans active twap twap d e f h k = tt
Precedes-trans active twap resolved d e f h k = tt
Precedes-trans active resolved active d e f h k = absurd k
Precedes-trans active resolved twap d e f h k = absurd k
Precedes-trans active resolved resolved d e f h k = tt
Precedes-trans twap active r d e f h k = absurd h
Precedes-trans twap twap active d e f h k = absurd k
Precedes-trans twap twap twap d e f h k = omega (arith, h, k)
Precedes-trans twap twap resolved d e f h k = tt
Precedes-trans twap resolved active d e f h k = absurd k
Precedes-trans twap resolved twap d e f h k = absurd k
Precedes-trans twap resolved resolved d e f h k = tt
Precedes-trans resolved active r d e f h k = absurd h
Precedes-trans resolved twap r d e f h k = absurd h
Precedes-trans resolved resolved active d e f h k = absurd k
Precedes-trans resolved resolved twap d e f h k = absurd k
Precedes-trans resolved resolved resolved d e f h k = omega (arith, h, k)

module _ {ℓ} {A : Type ℓ} (status : A → MarketPhase) (deadline : A → ℕ) where
  perm_refl : (l : List A) → Permᴰ l l
  perm_refl [] = Permᴰ.nil
  perm_refl (x ∷ xs) = Permᴰ.cons refl (perm_refl xs)

  abbrev pub IsBefore : A → A → Type 0
  IsBefore a b = Precedes (status a) (deadline a) (status b) (deadline b)

  -- Every entry may stand before every later one.
  unfoldable pub IsOrdered : List A → Type 0
  IsOrdered [] = Unit
  IsOrdered (a ∷ rest) = All (IsBefore a) rest × IsOrdered rest

  All-IsBefore : (a b : A) (l : List A) → IsBefore a b → All (IsBefore b) l → All (IsBefore a) l
  All-IsBefore a b [] h k = tt
  All-IsBefore a b (c ∷ cs) h (k, ks) = (
    Precedes-trans (status a) (status b) (status c) (deadline a) (deadline b) (deadline c) h k,
    All-IsBefore a b cs h ks,
  )

  insert_sorted-All :
      (x a : A) (l : List A)
      → IsBefore x a
      → All (IsBefore x) l
      → All (IsBefore x) (insert_sorted status deadline a l)
  unfolding insert_sorted
  insert_sorted-All x a [] h k = (h, tt)
  insert_sorted-All x a (b ∷ bs) h (k, ks) =
      let rest = insert_sorted-All x a bs h ks in
      if_intro (All (IsBefore x)) (not_after (status a) (deadline a) (status b) (deadline b))
        (h, (k, ks)) (k, rest)

  insert_sorted-IsOrdered :
      (a : A) (l : List A) → IsOrdered l → IsOrdered (insert_sorted status deadline a l)
  unfolding IsOrdered insert_sorted
  insert_sorted-IsOrdered a [] k = (tt, tt)
  insert_sorted-IsOrdered a (b ∷ bs) (k, ks) =
      let rest = insert_sorted-IsOrdered a bs ks in
      elim (Bool-cases (not_after (status a) (deadline a) (status b) (deadline b))) [
        | inl first ↦
            let before = not_after-Precedes (status a) (status b) (deadline a) (deadline b) first in
            rw first ((before, All-IsBefore a b bs before k), (k, ks))
        | inr later ↦
            let back = after-Precedes (status a) (status b) (deadline a) (deadline b) later in
            rw later (insert_sorted-All b a bs back k, rest)
      ]

  insert_sorted-Perm : (a : A) (l : List A) → Permᴰ (a ∷ l) (insert_sorted status deadline a l)
  unfolding insert_sorted
  insert_sorted-Perm a [] = perm_refl (a ∷ [])
  insert_sorted-Perm a (b ∷ bs) =
      let rest = insert_sorted-Perm a bs in
      if_intro (Permᴰ (a ∷ b ∷ bs)) (not_after (status a) (deadline a) (status b) (deadline b))
        (perm_refl (a ∷ b ∷ bs)) (Permᴰ.trans (Permᴰ.swap refl refl) (Permᴰ.cons refl rest))

  -- The sorted list holds the same entries, each as often, and is ordered.
  pub sort_parsed-IsOrdered :
      (l : List A)
      → Permᴰ l (sort_parsed status deadline l) × IsOrdered (sort_parsed status deadline l)
  unfolding sort_parsed IsOrdered
  sort_parsed-IsOrdered [] = (Permᴰ.nil, tt)
  sort_parsed-IsOrdered (a ∷ rest) =
      let (perm, ordered) = sort_parsed-IsOrdered rest in
      (
        Permᴰ.trans (Permᴰ.cons refl perm)
            (insert_sorted-Perm a (sort_parsed status deadline rest)),
        insert_sorted-IsOrdered a (sort_parsed status deadline rest) ordered,
      )

-- The list of markets holds the markets parsed, each as often, the active ones before those in
-- their window before the resolved ones, and later deadlines first among equals.
pub fetch_from_chain-IsOrdered :
    (now_ms : ℕ) (ms : List MarketEntry)
    → Permᴰ (parse_markets now_ms ms) (fetch_from_chain now_ms ms)
      × IsOrdered (λ m. m.status) (λ m. m.deadline) (fetch_from_chain now_ms ms)
unfolding fetch_from_chain
fetch_from_chain-IsOrdered now_ms ms =
    sort_parsed-IsOrdered (λ m. m.status) (λ m. m.deadline) (parse_markets now_ms ms)
