-- ===== src/Cranker/Laws.antt =====
-- The cranker's decisions against the guards of the program on the chain.
pub mod Messages
pub mod Tally
use duel_protocol.Prelude.{
  ℕ, suc, ◌+◌, ◌*◌, ◌/◌, ◌%◌, ◌^◌, ◌≤◌, ◌<◌, ◌≡◌, refl, ◌∙◌, ◌==◌, ◌&&◌, ◌↔◌, Bool, true, false,
  arith, leb, ltb,
}
use duel_protocol.Cranker.{
  Account, Sides, is_resolved, Decision, sample, resolve, decide, determine_expected_winner,
}
use duel_protocol.Cranker.Gates.{
  accepts_sample, accepts_resolution, winner, is_due, TokenVaults, can_graduate,
}

-- For a market that is not resolved the loop chooses to sample exactly when the guards accept a
-- sample.
pub decide-eq-sample_iff :
    (now : ℕ) (m : Account)
    → is_resolved m.status ≡ false
    → (decide now m ≡ sample) ↔ (accepts_sample now m ≡ true)
unfolding decide accepts_sample
decide-eq-sample_iff now m open_market = ground arith

min_samples_small :
    (m : Account) → m.twap_window < 2 ^ 32 → m.twap_window / m.twap_interval < 2 ^ 32
min_samples_small m h = grind arith

-- With some samples and averages that fit 64 bits the expected winner is the winner of the chain.
pub determine_expected_winner-winner :
    (acc_a acc_b samples reserve_a reserve_b : ℕ)
    → 0 < samples
    → acc_a / samples < 2 ^ 64
    → acc_b / samples < 2 ^ 64
    → determine_expected_winner acc_a acc_b samples reserve_a reserve_b
      ≡ winner acc_a acc_b samples reserve_a reserve_b
unfolding determine_expected_winner winner
determine_expected_winner-winner acc_a acc_b samples reserve_a reserve_b some_samples fit_a fit_b =
    ground arith

resolve_needs_samples :
    (now : ℕ) (m : Account)
    → 0 < m.twap_interval
    → decide now m ≡ resolve
    → 0 < m.twap_samples_count
unfolding decide
resolve_needs_samples now m ticking chosen = ground arith

due_iff :
    (now : ℕ) (m : Account)
    → is_resolved m.status ≡ false
    → 0 < m.twap_interval
    → m.twap_window < 2 ^ 32
    → (decide now m ≡ resolve) ↔ ((is_due now m ≡ true) × (accepts_sample now m ≡ false))
unfolding decide accepts_sample is_due
due_iff now m open_market ticking short = ground (arith, min_samples_small m short)

-- The averages of a market fit 64 bits.
pub record IsFitting (m : Account) (s : Sides) : Type 0 where
  pub fits_a : s.twap_accumulator_a / m.twap_samples_count < 2 ^ 64
  pub fits_b : s.twap_accumulator_b / m.twap_samples_count < 2 ^ 64

-- The winner that the cranker expects.
abbrev pub expected : Account → Sides → ℕ
expected m s =
    determine_expected_winner s.twap_accumulator_a s.twap_accumulator_b m.twap_samples_count
      s.quote_vault_a s.quote_vault_b

-- The resolution that the cranker chooses passes all guards but those on what goes into the pool.
pub chosen-accepted :
    (now : ℕ) (m : Account) (s : Sides) (v : TokenVaults)
    → is_resolved m.status ≡ false
    → 0 < m.twap_interval
    → m.twap_window < 2 ^ 32
    → IsFitting m s
    → decide now m ≡ resolve
    → accepts_resolution now m s v (expected m s) ≡ can_graduate s v (expected m s)
unfolding accepts_resolution
chosen-accepted now m s v open_market ticking short fit chosen =
    let same =
      determine_expected_winner-winner s.twap_accumulator_a s.twap_accumulator_b
        m.twap_samples_count s.quote_vault_a s.quote_vault_b
        (resolve_needs_samples now m ticking chosen) fit.fits_a fit.fits_b in
    let due = ((due_iff now m open_market ticking short).0 chosen).0 in
    let agreed : (expected m s == expected m s) ≡ true = ground arith in
    rw (due, ← same, agreed) refl

first_of : (b d : Bool) → (b && d) ≡ true → b ≡ true
first_of b d h = ground arith

-- For a market that is not resolved, with a positive interval, a window below 2^32 and averages of
-- 64 bits, whose quote vaults hold 0.1 SOL together and whose winning side has tokens left, the
-- loop chooses to resolve exactly when the guards on the market, the clock, the sides and the
-- vaults accept the resolution with the expected winner and no sample is accepted.
pub decide-eq-resolve_iff :
    (now : ℕ) (m : Account) (s : Sides) (v : TokenVaults)
    → is_resolved m.status ≡ false
    → 0 < m.twap_interval
    → m.twap_window < 2 ^ 32
    → IsFitting m s
    → can_graduate s v (expected m s) ≡ true
    → (decide now m ≡ resolve)
      ↔ ((accepts_resolution now m s v (expected m s) ≡ true) × (accepts_sample now m ≡ false))
unfolding accepts_resolution
decide-eq-resolve_iff now m s v open_market ticking short fit pool =
    let iff = due_iff now m open_market ticking short in
    (
      λ chosen.
          (chosen-accepted now m s v open_market ticking short fit chosen ∙ pool, (iff.0 chosen).1),
      λ (accepted, no_sample). iff.1 (first_of _ _ (first_of _ _ accepted), no_sample),
    )
