-- ===== src/Sdk/Indexer/Session/Tests.antt =====
-- A session that starts, hears a creation and stops, and one whose calls of `stop` overlap.
use mathlib.Core.List.Memᴰ.{head}
use duel_protocol.Prelude.{ℕ, ◌+◌, ◌≡◌, refl, false, List, [], ◌∷◌, String}
use duel_protocol.Sdk.Indexer.Backfill.{Event}
use duel_protocol.Sdk.Indexer.Session.{
  Session, new_session, remove, start_from, start, stop_from, stop, stopped, on_logs,
}
use duel_protocol.Sdk.Indexer.Session.Laws.{
  next, done, starts, stops, logs, removed, IsSound, Reaches-IsSound,
}

abbrev parse_logs : List String → List Event
parse_logs lines = []

abbrev clock : ℕ → ℕ
clock n = 1000 + n

abbrev started : Session
started = start new_session

abbrev heard : Session
heard = on_logs parse_logs clock 3 false ("created" ∷ []) started

Reaches-IsSound_example : IsSound (stopped (stop heard))
unfolding start start_from new_session stop stop_from on_logs
Reaches-IsSound_example = Reaches-IsSound parse_logs clock (stopped (stop heard)) (
    next new_session (stop heard) (stopped (stop heard))
      (next new_session heard (stop heard)
        (next new_session started heard
          (next new_session new_session started (done new_session) (starts new_session))
          (logs started 0 3 false ("created" ∷ []) (head refl)))
        (stops heard refl))
      (removed (stop heard) 0 refl))

-- Two calls of `stop` that overlap with a `start` leave two listeners.
overlapping_run :
    (start (stopped (start (stopped (stop (stop (start new_session))))))).listeners ≡ 2 ∷ 1 ∷ []
unfolding start start_from stop stop_from stopped remove new_session
overlapping_run = refl
