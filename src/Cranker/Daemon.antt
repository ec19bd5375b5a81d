-- ===== src/Cranker/Daemon.antt =====
-- The cranker as a process, `main`, `shutdown` and the awaits of `crankerLoop` in
-- backend/src/cranker.ts: what runs between two awaits is a function, and the order in which the
-- timers, the signals and the answers come is left open. The awaits within the body for one market
-- are taken as one. A turn that awaits nothing is split, which allows more orders than there are.
pub mod Steps
pub mod Laws
pub mod Quiet
mod Tests
use duel_protocol.Prelude.{
  ℕ, zero, suc, ◌+◌, ◌-◌, ◌≡◌, ◌≤◌, Option, none, some, Bool, true, false, List, [], ◌∷◌, ◌++◌, ltb,
  ◌&&◌, ◌||◌, if◌then◌else◌,
}
use duel_protocol.Cranker.{Cranker, Turn, fail, crank_market, active_markets}

-- Where a call of `crankerLoop` that has passed its first line stands: waiting for the list of
-- markets, at the head of its loop, or waiting within the body for a market.
pub data Flight : Type 0 where
  listing : (now : ℕ) → Flight
  looping : (now : ℕ) (rest : List Turn) → Flight
  at_work : (now : ℕ) (t : Turn) (rest : List Turn) → Flight

-- Where the process stands: before `main` has set the poll timer and the handlers of the signals,
-- polling, in the loop of `shutdown` that has waited so many milliseconds, closing the pool, gone
-- by `process.exit(0)`, or killed by a signal that nothing handled.
pub data Phase : Type 0 where
  booting running : Phase
  waiting closing gone : (elapsed : ℕ) → Phase
  killed : Phase

-- Every call at work has its place in `flights`, whatever the flags say.
pub record Daemon : Type 0 where
  pub cranker : Cranker
  pub flights : List Flight
  pub phase : Phase

unfoldable pub new_daemon : Daemon
new_daemon = record {
  cranker = record {
    is_shutting_down = false;
    is_processing = false;
    total_samples = 0;
    total_resolutions = 0;
    total_errors = 0;
    sent = [];
  };
  flights = [];
  phase = booting;
}

-- A call of `crankerLoop` up to its first await, by the first tick of `main` or by the timer.
unfoldable pub tick : ℕ → Daemon → Daemon
tick now d = if d.cranker.is_processing || d.cranker.is_shutting_down then d else record d {
  cranker = record d.cranker { is_processing = true };
  flights = d.flights ++ listing now ∷ [];
}

-- `finally { isProcessing = false }`, and the call is over.
abbrev pub finish : Cranker → Cranker × Option Flight
finish c = (record c { is_processing = false }, none)

-- What a call does next, up to its next await: `markets` is the answer to `market.all()`, `none` when
-- it throws.
unfoldable pub resume : Bool → Option (List Turn) → Flight → Cranker → Cranker × Option Flight
resume dry_run none (listing now) c = finish (fail c)
resume dry_run (some ts) (listing now) c = (c, some (looping now (active_markets ts)))
resume dry_run markets (looping now []) c = finish c
resume dry_run markets (looping now (t ∷ rest)) c =
    if c.is_shutting_down then finish c else (c, some (at_work now t rest))
resume dry_run markets (at_work now t rest) c =
    (crank_market now dry_run t c, some (looping now rest))

abbrev pub still : Option Flight → List Flight
still none = []
still (some f) = f ∷ []

-- The call between `before` and `after` goes on.
unfoldable pub resumed :
    Bool → Option (List Turn) → List Flight → Flight → List Flight → Daemon → Daemon
unfolding resume
resumed dry_run markets before f after d =
    let next = resume dry_run markets f d.cranker in
    record d { cranker = next.0; flights = before ++ still next.1 ++ after }

-- The end of `main`, after its first tick.
unfoldable pub booted_from : Phase → List Flight → Daemon → Daemon
booted_from booting [] d = record d { phase = running }
booted_from _ _ d = d

-- A signal: `shutdown` up to its loop, once it is the handler.
unfoldable pub signalled_from : Phase → Daemon → Daemon
signalled_from booting d = record d { phase = killed }
signalled_from running d = record d {
  cranker = record d.cranker { is_shutting_down = true };
  phase = waiting 0;
}
signalled_from _ d = d

-- The test of the loop of `shutdown`, `delay` milliseconds after the last.
unfoldable pub checked_from : Phase → ℕ → Daemon → Daemon
checked_from (waiting elapsed) delay d =
    if d.cranker.is_processing && ltb (elapsed + delay) 10000
    then record d { phase = waiting (elapsed + delay) }
    else record d { phase = closing (elapsed + delay) }
checked_from _ delay d = d

-- `db.closePool()` has answered.
unfoldable pub exited_from : Phase → Daemon → Daemon
exited_from (closing elapsed) d = record d { phase = gone elapsed }
exited_from _ d = d

-- Whether the process runs, and whether the timer ticks: it is cleared when the wait is over.
abbrev pub is_alive : Phase → Bool
is_alive (gone _) = false
is_alive killed = false
is_alive _ = true

abbrev pub is_ticking : Phase → Bool
is_ticking running = true
is_ticking (waiting _) = true
is_ticking _ = false

-- `while (isProcessing && Date.now() - start < maxWait)`: `busy n` and `clock n` are the flag and the
-- milliseconds at the `n`th test, and the result counts the sleeps. `none` is for fuel run out.
unfoldable pub wait_from : (ℕ → Bool) → (ℕ → ℕ) → ℕ → ℕ → Option ℕ
wait_from busy clock zero n = none
wait_from busy clock (suc fuel) n =
    let rest = wait_from busy clock fuel (n + 1) in
    if busy n && ltb (clock n - clock 0) 10000 then rest else some n
