-- ===== src/Curve/Bisect.antt =====
-- The search loop shared by `tokensOut` of scripts/curve-sim.ts and `calculateTokensOut` of
-- sdk/src/client.ts, over the test that its body makes at `mid`.
use duel_protocol.Prelude.{
  ℕ, zero, suc, ◌+◌, ◌-◌, ◌/◌, ◌≤◌, ◌<◌, ◌≡◌, ◌≢◌, refl, Option, none, some, Bool, true, false, leb,
  leb→le, leb-false, ◌==◌, if◌then◌else◌, arith, Bool-cases, inl, inr, ==-false,
}

-- `while (lo <= hi) { ... }`; `none` means that the fuel ran out.
unfoldable pub bisect : ℕ → (ℕ → Bool) → ℕ → ℕ → ℕ → Option ℕ
bisect zero fits lo hi best = none
bisect (suc fuel) fits lo hi best =
    let mid = lo + (hi - lo) / 2 in
    let upper = bisect fuel fits (mid + 1) hi mid in
    let lower = bisect fuel fits lo (mid - 1) best in
    if leb lo hi
    then if fits mid
      then if mid == hi then some mid else upper
      else if mid == 0
      then some best
      else lower
    else some best

-- What the loop keeps: `best` fits, is within `top`, and whatever fits is at most `hi`.
pub record Inv (fits : ℕ → Bool) (top lo hi best : ℕ) : Type 0 where
  pub best_fits : fits best ≡ true
  pub best_le : best ≤ top
  pub hi_le : hi ≤ top
  pub lo_le : lo ≤ best + 1
  pub ordered : lo ≤ hi + 1
  pub below : (m : ℕ) → m ≤ top → fits m ≡ true → m ≤ hi

-- The largest number up to `top` that fits.
pub record IsLargest (fits : ℕ → Bool) (top r : ℕ) : Type 0 where
  pub fits_here : fits r ≡ true
  pub within : r ≤ top
  pub largest : (m : ℕ) → m ≤ top → fits m ≡ true → m ≤ r

abbrev pub IsDownward : (ℕ → Bool) → Type 0
IsDownward fits = (m k : ℕ) → m ≤ k → fits k ≡ true → fits m ≡ true

module _ (fits : ℕ → Bool) (down : IsDownward fits) (top : ℕ) where
  below_mid : (mid m : ℕ) → fits mid ≡ false → fits m ≡ true → m < mid
  below_mid mid m no_fit fit = elim (Bool-cases (leb mid m)) [
    | inl above ↦ ground (arith, down mid m (leb→le mid m above) fit)
    | inr under ↦ leb-false mid m under
  ]

  over_IsLargest :
      (lo hi best : ℕ) → leb lo hi ≡ false → Inv fits top lo hi best → IsLargest fits top best
  over_IsLargest lo hi best over inv = record {
    fits_here = inv.best_fits;
    within = inv.best_le;
    largest = λ m h fit. ground (arith, inv.below m h fit);
  }

  last_IsLargest :
      (lo hi best mid : ℕ)
      → fits mid ≡ true
      → (mid == hi) ≡ true
      → Inv fits top lo hi best
      → IsLargest fits top mid
  last_IsLargest lo hi best mid fit last inv = record {
    fits_here = fit;
    within = ground arith;
    largest = λ m h fit_m. ground (arith, inv.below m h fit_m);
  }

  upper-Inv :
      (lo hi best mid : ℕ)
      → mid ≤ hi
      → fits mid ≡ true
      → Inv fits top lo hi best
      → Inv fits top (mid + 1) hi mid
  upper-Inv lo hi best mid le fit inv = record {
    best_fits = fit;
    best_le = omega arith;
    hi_le = inv.hi_le;
    lo_le = omega arith;
    ordered = omega arith;
    below = inv.below;
  }

  lower-Inv :
      (lo hi best mid : ℕ)
      → lo ≤ mid
      → mid ≤ hi
      → fits mid ≡ false
      → mid ≢ 0
      → Inv fits top lo hi best
      → Inv fits top lo (mid - 1) best
  lower-Inv lo hi best mid ge le no_fit more inv = record {
    best_fits = inv.best_fits;
    best_le = inv.best_le;
    hi_le = omega arith;
    lo_le = inv.lo_le;
    ordered = omega arith;
    below = λ m h fit. omega (arith, below_mid mid m no_fit fit);
  }

  pub bisect-IsLargest :
      (fuel lo hi best : ℕ)
      → hi + 1 < lo + fuel
      → Inv fits top lo hi best
      → (r : ℕ) × (bisect fuel fits lo hi best ≡ some r) × IsLargest fits top r
  unfolding bisect
  bisect-IsLargest zero lo hi best enough inv = absurd (omega (arith, inv.ordered))
  bisect-IsLargest (suc fuel) lo hi best enough inv = elim (Bool-cases (leb lo hi)) [
    | inr over ↦ (best, rw over refl, over_IsLargest lo hi best over inv)
    | inl open_range ↦
        let mid = lo + (hi - lo) / 2 in
        elim (Bool-cases (fits mid)) [
          | inl fit ↦ elim (Bool-cases (mid == hi)) [
            | inl last ↦
                (mid, rw (open_range, fit, last) refl, last_IsLargest lo hi best mid fit last inv)
            | inr more ↦
                rw (open_range, fit, more)
                  (bisect-IsLargest fuel (mid + 1) hi mid (omega arith)
                    (upper-Inv lo hi best mid (ground arith) fit inv))
          ]
          | inr no_fit ↦
              rw (open_range, no_fit)
                (elim (Bool-cases (mid == 0)) [
                  | inl first ↦ absurd (ground (arith, below_mid mid best no_fit inv.best_fits))
                  | inr more ↦ rw more (
                      bisect-IsLargest fuel lo (mid - 1) best (ground arith) (
                        lower-Inv lo hi best mid (omega arith) (ground arith) no_fit
                          (==-false mid 0 more) inv))
                ])
        ]
  ]

  start_Inv : fits 0 ≡ true → Inv fits top 0 top 0
  start_Inv free = record {
    best_fits = free;
    best_le = omega arith;
    hi_le = omega arith;
    lo_le = omega arith;
    ordered = omega arith;
    below = λ m h fit. h;
  }

  -- From the whole range, with the fuel that both callers give, the loop returns the largest
  -- number that fits.
  pub search_IsLargest :
      fits 0 ≡ true → (r : ℕ) × (bisect (top + 2) fits 0 top 0 ≡ some r) × IsLargest fits top r
  search_IsLargest free = bisect-IsLargest (top + 2) 0 top 0 (omega arith) (start_Inv free)
