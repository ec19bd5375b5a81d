-- ===== src/Cranker/Daemon/Tests.antt =====
-- A signal that comes while a market is worked on, before and after the handlers are set, and a tick
-- that comes while a call is at work.
use duel_protocol.Prelude.{
  ℕ, ◌+◌, ◌*◌, ◌≤◌, ◌≡◌, refl, ◌⊎◌, Option, none, some, Bool, true, false, List, [], ◌∷◌, arith,
  ltb,
}
use duel_protocol.Cranker.{Turn, active, active_markets}
use duel_protocol.Cranker.Daemon.{
  listing, looping, at_work, Daemon, new_daemon, tick, resume, resumed, booted_from, signalled_from,
  wait_from, killed,
}
use duel_protocol.Cranker.Daemon.Steps.{Reaches, done, next, first_ticks, ticks, resumes, boots}
use duel_protocol.Cranker.Daemon.Laws.{IsGuarded, Reaches-IsGuarded}
use duel_protocol.Cranker.Daemon.Quiet.{shutdown_ends}

abbrev turn : Turn
turn = record {
  market = 7;
  account = record {
    deadline = 2000;
    twap_window = 600;
    twap_interval = 60;
    status = active;
    twap_samples_count = 0;
    last_sample_ts = 0;
  };
  replies = record {
    signalled = false;
    sample_confirmed = true;
    sides = none;
    token_account = some true;
    wsol_account = some true;
    created = false;
    resolve_confirmed = false;
  };
}

abbrev markets : Option (List Turn)
markets = some (turn ∷ [])

-- The first tick, on no markets; then a tick of the timer, that comes to the market.
abbrev ticked : Daemon
ticked = tick 1500 new_daemon

abbrev listed : Daemon
listed = resumed false (some []) [] (listing 1500) [] ticked

abbrev over : Daemon
over = resumed false none [] (looping 1500 []) [] listed

abbrev polling : Daemon
polling = booted_from over.phase over.flights over

abbrev second : Daemon
second = tick 1600 polling

abbrev second_listed : Daemon
second_listed = resumed false markets [] (listing 1600) [] second

abbrev working : Daemon
working = resumed false none [] (looping 1600 (turn ∷ [])) [] second_listed

abbrev stopping : Daemon
stopping = signalled_from working.phase working

abbrev worked : Daemon
worked = resumed false none [] (at_work 1600 turn []) [] stopping

-- A tick that comes now does nothing.
tick_run : (tick 1700 working).flights ≡ at_work 1600 turn [] ∷ []
unfolding tick new_daemon resumed resume active_markets booted_from
tick_run = refl

working_run : Reaches false new_daemon working
unfolding tick new_daemon resumed resume active_markets booted_from
working_run =
    next new_daemon second_listed working
      (next new_daemon second second_listed
        (next new_daemon polling second
          (next new_daemon over polling
            (next new_daemon listed over
              (next new_daemon ticked listed
                (next new_daemon new_daemon ticked (done new_daemon)
                  (first_ticks new_daemon 1500 refl))
                (resumes ticked (some []) [] (listing 1500) [] refl refl))
              (resumes listed none [] (looping 1500 []) [] refl refl))
            (boots over))
          (ticks polling 1600 refl))
        (resumes second markets [] (listing 1600) [] refl refl))
      (resumes second_listed none [] (looping 1600 (turn ∷ [])) [] refl refl)

Reaches-IsGuarded_example : IsGuarded working
Reaches-IsGuarded_example = Reaches-IsGuarded false working working_run

-- Nothing handles a signal during the first tick: the process is gone with its market at work.
abbrev first_listed : Daemon
first_listed = resumed false markets [] (listing 1500) [] ticked

abbrev first_working : Daemon
first_working = resumed false none [] (looping 1500 (turn ∷ [])) [] first_listed

killed_run :
    let d = signalled_from first_working.phase first_working in
    (d.phase ≡ killed) × (d.flights ≡ at_work 1500 turn [] ∷ [])
unfolding tick new_daemon resumed resume active_markets signalled_from
killed_run = (refl, refl)

-- The loop ends after the third test.
abbrev busy : ℕ → Bool
busy n = ltb n 3

abbrev clock : ℕ → ℕ
clock n = 5000 + 100 * n

clock_sleeps : (n : ℕ) → clock n + 100 ≤ clock (n + 1)
clock_sleeps n = omega arith

shutdown_ends_example :
    (k : ℕ) × (wait_from busy clock 101 0 ≡ some k)
    × (k ≤ 100)
    × ((busy k ≡ false) ⊎ (clock 0 + 10000 ≤ clock k))
shutdown_ends_example = shutdown_ends busy clock clock_sleeps

wait_run : wait_from busy clock 101 0 ≡ some 3
unfolding wait_from
wait_run = refl
