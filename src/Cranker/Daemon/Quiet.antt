-- ===== src/Cranker/Daemon/Quiet.antt =====
-- The end of the process: what it still does after the signal, and how long `shutdown` waits.
use duel_protocol.Prelude.{
  ℕ, zero, suc, ◌+◌, ◌-◌, ◌*◌, ◌≤◌, ◌≡◌, refl, ◌⊎◌, inl, inr, Option, some, Bool, true, false,
  Bool-cases, length, arith, ltb, ◌&&◌, sum_by,
}
use duel_protocol.Cranker.{Cranker}
use duel_protocol.Cranker.Daemon.{Flight, at_work, Daemon, still, wait_from}

-- The transactions that a call may still send once the shutdown has begun: those of the market that
-- it is at work on.
abbrev pub pending : Flight → ℕ
pending (at_work now t rest) = 2
pending _ = 0

-- The shutdown goes on, and no transaction beyond those pending is sent.
record IsQuiet (d e : Daemon) : Type 0 where
  stays : e.cranker.is_shutting_down ≡ true
  no_more :
      length e.cranker.sent + sum_by pending e.flights
      ≤ length d.cranker.sent + sum_by pending d.flights

-- What one call does after the signal.
abbrev IsLast : Flight → Cranker → Cranker × Option Flight → Type 0
IsLast f c moved =
    (moved.0.is_shutting_down ≡ true)
    × (length moved.0.sent + sum_by pending (still moved.1) ≤ length c.sent + pending f)

module _ (busy : ℕ → Bool) (clock : ℕ → ℕ) (sleeps : (n : ℕ) → clock n + 100 ≤ clock (n + 1)) where
  clock_runs : (n : ℕ) → clock 0 + 100 * n ≤ clock n
  clock_runs zero = omega arith
  clock_runs (suc n) =
      let same : n + 1 ≡ suc n = omega arith in
      let slept : clock n + 100 ≤ clock (suc n) = rw same at (sleeps n) in
      omega (arith, clock_runs n, slept)

  wait_over :
      (n : ℕ)
      → (busy n && ltb (clock n - clock 0) 10000) ≡ false
      → (busy n ≡ false) ⊎ (clock 0 + 10000 ≤ clock n)
  wait_over n over = elim (Bool-cases (busy n)) [
    | inr free ↦ inl free
    | inl at_work' ↦ inr (ground (arith, clock_runs n))
  ]

  wait_from_ends :
      (fuel n : ℕ)
      → 101 ≤ fuel + n
      → n ≤ 100
      → (k : ℕ) × (wait_from busy clock fuel n ≡ some k)
        × (k ≤ 100)
        × ((busy k ≡ false) ⊎ (clock 0 + 10000 ≤ clock k))
  unfolding wait_from
  wait_from_ends zero n enough few = absurd (omega arith)
  wait_from_ends (suc fuel) n enough few =
      elim (Bool-cases (busy n && ltb (clock n - clock 0) 10000)) [
        | inr over ↦ (n, rw over refl, few, wait_over n over)
        | inl again ↦
            let early : n + 1 ≤ 100 = ground (arith, clock_runs n) in
            let (k, ends, within, why) = wait_from_ends fuel (n + 1) (omega arith) early in
            (k, rw again ends, within, why)
      ]

  -- If each sleep of shutdown takes 100 milliseconds or more, its wait ends after at most 100
  -- sleeps, at a test where the loop is idle or ten seconds have passed.
  pub shutdown_ends :
      (k : ℕ) × (wait_from busy clock 101 0 ≡ some k)
      × (k ≤ 100)
      × ((busy k ≡ false) ⊎ (clock 0 + 10000 ≤ clock k))
  shutdown_ends = wait_from_ends 101 0 (omega arith) (omega arith)
