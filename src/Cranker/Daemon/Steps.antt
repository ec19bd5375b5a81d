-- ===== src/Cranker/Daemon/Steps.antt =====
-- The orders in which timers, signals and answers may come. The last part of `main` may also run
-- before its first tick, and a test of `shutdown` after any delay, which allows more than there is.
use duel_protocol.Prelude.{ℕ, ◌≡◌, Bool, true, Option, List, ◌∷◌, ◌++◌}
use duel_protocol.Cranker.{Turn}
use duel_protocol.Cranker.Daemon.{
  Flight, booting, Daemon, tick, resumed, booted_from, signalled_from, checked_from, exited_from,
  is_alive, is_ticking,
}

module _ (dry_run : Bool) where
  pub data Step : Daemon → Daemon → Type 0 where
    first_ticks : (d : Daemon) (now : ℕ) → d.phase ≡ booting → Step d (tick now d)
    ticks : (d : Daemon) (now : ℕ) → is_ticking d.phase ≡ true → Step d (tick now d)
    resumes :
        (d : Daemon) (markets : Option (List Turn)) (before : List Flight) (f : Flight)
        (after : List Flight)
        → is_alive d.phase ≡ true
        → d.flights ≡ before ++ f ∷ after
        → Step d (resumed dry_run markets before f after d)
    boots : (d : Daemon) → Step d (booted_from d.phase d.flights d)
    signals : (d : Daemon) → Step d (signalled_from d.phase d)
    checks : (d : Daemon) (delay : ℕ) → Step d (checked_from d.phase delay d)
    exits : (d : Daemon) → Step d (exited_from d.phase d)

  pub data Reaches : Daemon → Daemon → Type 0 where
    done : (d : Daemon) → Reaches d d
    next : (d e f : Daemon) → Reaches d e → Step e f → Reaches d f
