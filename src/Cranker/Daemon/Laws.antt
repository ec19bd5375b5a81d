-- ===== src/Cranker/Daemon/Laws.antt =====
-- What holds of the process however timers, signals and answers interleave.
use duel_protocol.Prelude.{
  ℕ, ◌+◌, ◌≤◌, ◌≡◌, refl, ◌∙◌, ◌⊎◌, inl, inr, Option, none, some, Bool, true, false, Bool-cases,
  List, [], ◌∷◌, ◌++◌, arith, ltb, ◌&&◌, ◌||◌, if_intro,
}
use mathlib.Core.List.{append-nil}
use duel_protocol.Cranker.{Cranker, Turn}
use duel_protocol.Cranker.Laws.Tally.{crank_market-IsTurn}
use duel_protocol.Cranker.Daemon.{
  Flight, listing, looping, at_work, Phase, booting, running, waiting, closing, gone, killed,
  Daemon, new_daemon, tick, resume, still, resumed, booted_from, signalled_from, checked_from,
  exited_from,
}
use duel_protocol.Cranker.Daemon.Steps.{
  Step, first_ticks, ticks, resumes, boots, signals, checks, exits, Reaches, done, next,
}

-- At most one call is at work, and the flag `isProcessing` is set exactly then.
abbrev pub Alone : List Flight → Bool → Type 0
Alone [] processing = processing ≡ false
Alone (f ∷ []) processing = processing ≡ true
Alone (f ∷ g ∷ fs) processing = ⊥

-- The wait was over: the call had ended, or ten seconds had passed.
abbrev pub WaitedFor : ℕ → List Flight → Type 0
WaitedFor elapsed fs = (fs ≡ []) ⊎ (10000 ≤ elapsed)

-- What the phase says of `isShuttingDown` and of the calls at work.
abbrev Fits : Phase → Bool → List Flight → Type 0
Fits booting shutting fs = shutting ≡ false
Fits running shutting fs = shutting ≡ false
Fits (waiting e) shutting fs = shutting ≡ true
Fits (closing e) shutting fs = (shutting ≡ true) × WaitedFor e fs
Fits (gone e) shutting fs = (shutting ≡ true) × WaitedFor e fs
Fits killed shutting fs = shutting ≡ false

pub record IsGuarded (d : Daemon) : Type 0 where
  pub alone : Alone d.flights d.cranker.is_processing
  pub fits : Fits d.phase d.cranker.is_shutting_down d.flights

-- The flag of the shutdown stays, and a call at work may only end.
Fits-moved :
    (p : Phase) (b b' : Bool) (fs fs' : List Flight)
    → b' ≡ b
    → (fs ≡ [] → fs' ≡ [])
    → Fits p b fs
    → Fits p b' fs'
Fits-moved booting b b' fs fs' same ends h = same ∙ h
Fits-moved running b b' fs fs' same ends h = same ∙ h
Fits-moved (waiting e) b b' fs fs' same ends h = same ∙ h
Fits-moved (closing e) b b' fs fs' same ends (shut, inl ended) = (same ∙ shut, inl (ends ended))
Fits-moved (closing e) b b' fs fs' same ends (shut, inr late) = (same ∙ shut, inr late)
Fits-moved (gone e) b b' fs fs' same ends (shut, inl ended) = (same ∙ shut, inl (ends ended))
Fits-moved (gone e) b b' fs fs' same ends (shut, inr late) = (same ∙ shut, inr late)
Fits-moved killed b b' fs fs' same ends h = same ∙ h

-- Before the shutdown a call may start.
Fits-started :
    (p : Phase) (b : Bool) (fs fs' : List Flight) → b ≡ false → Fits p b fs → Fits p b fs'
Fits-started booting b fs fs' runs h = runs
Fits-started running b fs fs' runs h = runs
Fits-started (waiting e) b fs fs' runs h = cc
Fits-started (closing e) b fs fs' runs (shut, late) = cc
Fits-started (gone e) b fs fs' runs (shut, late) = cc
Fits-started killed b fs fs' runs h = runs

none_of_flag : (fs : List Flight) (b : Bool) → Alone fs b → b ≡ false → fs ≡ []
none_of_flag [] b h e = refl
none_of_flag (f ∷ []) b h e = cc
none_of_flag (f ∷ g ∷ fs) b h e = absurd h

Alone-split :
    (before : List Flight) (f : Flight) (after : List Flight) (b : Bool)
    → Alone (before ++ f ∷ after) b
    → (before ≡ []) × (after ≡ []) × (b ≡ true)
Alone-split [] f [] b h = (refl, refl, h)
Alone-split [] f (g ∷ after) b h = absurd h
Alone-split (e ∷ []) f after b h = absurd h
Alone-split (e ∷ e' ∷ before) f after b h = absurd h

tick-IsGuarded : (now : ℕ) (d : Daemon) → IsGuarded d → IsGuarded (tick now d)
unfolding tick
tick-IsGuarded now d g = elim (Bool-cases (d.cranker.is_processing || d.cranker.is_shutting_down)) [
  | inl taken ↦ rw (tick, taken) g
  | inr free ↦
      let runs : d.cranker.is_shutting_down ≡ false = ground arith in
      let unset : d.cranker.is_processing ≡ false = ground arith in
      let none_yet = none_of_flag d.flights d.cranker.is_processing g.alone unset in
      rw (tick, free)
        (record {
          alone = rw none_yet refl;
          fits =
              Fits-started d.phase d.cranker.is_shutting_down d.flights
                (d.flights ++ listing now ∷ []) runs g.fits;
        })
]

-- What a call does keeps the flag of the shutdown, and leaves the other set exactly if it goes on.
abbrev IsKept : Cranker → Cranker × Option Flight → Type 0
IsKept c after =
    (after.0.is_shutting_down ≡ c.is_shutting_down) × Alone (still after.1) after.0.is_processing

resume-IsKept :
    (dry_run : Bool) (markets : Option (List Turn)) (f : Flight) (c : Cranker)
    → c.is_processing ≡ true
    → IsKept c (resume dry_run markets f c)
unfolding resume
resume-IsKept dry_run none (listing now) c set = (refl, refl)
resume-IsKept dry_run (some ts) (listing now) c set = (refl, set)
resume-IsKept dry_run markets (looping now []) c set = (refl, refl)
resume-IsKept dry_run markets (looping now (t ∷ rest)) c set =
    if_intro (IsKept c) c.is_shutting_down (refl, refl) (refl, set)
resume-IsKept dry_run markets (at_work now t rest) c set =
    let turn = crank_market-IsTurn now dry_run t c in (turn.shutting, turn.processing ∙ set)

-- One call that goes on where it is the only one.
resumed_alone :
    (dry_run : Bool) (markets : Option (List Turn)) (f : Flight) (d : Daemon)
    → d.flights ≡ f ∷ []
    → d.cranker.is_processing ≡ true
    → IsGuarded d
    → IsGuarded (resumed dry_run markets [] f [] d)
unfolding resumed
resumed_alone dry_run markets f d only set g =
    let moved = resume dry_run markets f d.cranker in
    let (same, alone) = resume-IsKept dry_run markets f d.cranker set in
    record {
      alone = rw (append-nil (still moved.1)) alone;
      fits =
          Fits-moved d.phase d.cranker.is_shutting_down moved.0.is_shutting_down d.flights
            (still moved.1 ++ []) same (λ none_at_work. cc (only, none_at_work)) g.fits;
    }

resumed-IsGuarded :
    (dry_run : Bool) (markets : Option (List Turn)) (before : List Flight) (f : Flight)
    (after : List Flight) (d : Daemon)
    → d.flights ≡ before ++ f ∷ after
    → IsGuarded d
    → IsGuarded (resumed dry_run markets before f after d)
resumed-IsGuarded dry_run markets before f after d at g =
    let (no_before, no_after, set) =
      Alone-split before f after d.cranker.is_processing (rw at at g.alone) in
    let only : d.flights ≡ f ∷ [] = rw (no_before, no_after) at at in
    rw (no_before, no_after) (resumed_alone dry_run markets f d only set g)

booted_from-IsGuarded :
    (p : Phase) (fs : List Flight) (d : Daemon)
    → d.phase ≡ p
    → IsGuarded d
    → IsGuarded (booted_from p fs d)
unfolding booted_from
booted_from-IsGuarded booting [] d e g = record { alone = g.alone; fits = rw e at g.fits }
booted_from-IsGuarded _ _ d e g = g

signalled_from-IsGuarded :
    (p : Phase) (d : Daemon) → d.phase ≡ p → IsGuarded d → IsGuarded (signalled_from p d)
unfolding signalled_from
signalled_from-IsGuarded booting d e g = record { alone = g.alone; fits = rw e at g.fits }
signalled_from-IsGuarded running d e g = record { alone = g.alone; fits = refl }
signalled_from-IsGuarded (waiting n) d e g = g
signalled_from-IsGuarded (closing n) d e g = g
signalled_from-IsGuarded (gone n) d e g = g
signalled_from-IsGuarded killed d e g = g

waited :
    (fs : List Flight) (processing : Bool) (n : ℕ)
    → Alone fs processing
    → (processing && ltb n 10000) ≡ false
    → WaitedFor n fs
waited fs false n alone over = inl (none_of_flag fs false alone refl)
waited fs true n alone over = inr (ground arith)

checked_from-IsGuarded :
    (p : Phase) (delay : ℕ) (d : Daemon)
    → d.phase ≡ p
    → IsGuarded d
    → IsGuarded (checked_from p delay d)
unfolding checked_from
checked_from-IsGuarded (waiting n) delay d e g =
    let shut : d.cranker.is_shutting_down ≡ true = rw e at g.fits in
    elim (Bool-cases (d.cranker.is_processing && ltb (n + delay) 10000)) [
      | inl again ↦ rw (checked_from, again) (record { alone = g.alone; fits = shut })
      | inr over ↦
          rw (checked_from, over)
            (record {
              alone = g.alone;
              fits = (shut, waited d.flights d.cranker.is_processing (n + delay) g.alone over);
            })
    ]
checked_from-IsGuarded booting delay d e g = g
checked_from-IsGuarded running delay d e g = g
checked_from-IsGuarded (closing n) delay d e g = g
checked_from-IsGuarded (gone n) delay d e g = g
checked_from-IsGuarded killed delay d e g = g

exited_from-IsGuarded :
    (p : Phase) (d : Daemon) → d.phase ≡ p → IsGuarded d → IsGuarded (exited_from p d)
unfolding exited_from
exited_from-IsGuarded (closing n) d e g = record { alone = g.alone; fits = rw e at g.fits }
exited_from-IsGuarded booting d e g = g
exited_from-IsGuarded running d e g = g
exited_from-IsGuarded (waiting n) d e g = g
exited_from-IsGuarded (gone n) d e g = g
exited_from-IsGuarded killed d e g = g

module _ (dry_run : Bool) where
  Step-IsGuarded : (d e : Daemon) → Step dry_run d e → IsGuarded d → IsGuarded e
  Step-IsGuarded d e (first_ticks _ now boot) g = tick-IsGuarded now d g
  Step-IsGuarded d e (ticks _ now on) g = tick-IsGuarded now d g
  Step-IsGuarded d e (resumes _ markets before f after alive at) g =
      resumed-IsGuarded dry_run markets before f after d at g
  Step-IsGuarded d e (boots _) g = booted_from-IsGuarded d.phase d.flights d refl g
  Step-IsGuarded d e (signals _) g = signalled_from-IsGuarded d.phase d refl g
  Step-IsGuarded d e (checks _ delay) g = checked_from-IsGuarded d.phase delay d refl g
  Step-IsGuarded d e (exits _) g = exited_from-IsGuarded d.phase d refl g

  IsGuarded-Reaches : (d e : Daemon) → Reaches dry_run d e → IsGuarded d → IsGuarded e
  IsGuarded-Reaches d e (done _) g = g
  IsGuarded-Reaches d e (next _ m _ r step) g = Step-IsGuarded m e step (IsGuarded-Reaches d m r g)

  -- However ticks, signals, answers and waits interleave from a new process, at most one call of
  -- crankerLoop is at work, isProcessing is set exactly while one is, isShuttingDown is set
  -- exactly as the phase of the process says, and the pool is closed and the process gone only
  -- after the call has ended or ten seconds have passed.
  pub Reaches-IsGuarded : (d : Daemon) → Reaches dry_run new_daemon d → IsGuarded d
  unfolding new_daemon
  Reaches-IsGuarded d r = IsGuarded-Reaches new_daemon d r (record { alone = refl; fits = refl })
