-- ===== src/Backend/Live/Steps.antt =====
-- The runs of the listener, with the events heard on the way, oldest first.
use duel_protocol.Prelude.{ℕ, String, Bool, Option, List, [], ◌∷◌, ◌++◌, ◌≡◌}
use duel_protocol.Backend.Ingest.{Database}
use duel_protocol.Backend.Ingest.Rows.{Event, Fetched}
use duel_protocol.Backend.Live.{Task, Live, heard, on_logs, answered}

module _ (db : Database) (parse_logs : List String → List Event) where
  pub data Hears : Live → List (ℕ × Event) → Live → Type 0 where
    starts : (l : Live) → Hears l [] l
    hears :
        (l m : Live) (es : List (ℕ × Event)) (err : Bool) (logs : List String) (slot : ℕ)
        → Hears l es m
        → Hears l (es ++ heard parse_logs err logs slot) (on_logs parse_logs err logs slot m)
    answers :
        (l m : Live) (es : List (ℕ × Event)) (now_ms : ℕ) (found : Option Fetched)
        (before : List Task) (t : Task) (after : List Task)
        → Hears l es m
        → m.tasks ≡ before ++ t ∷ after
        → Hears l es (answered db now_ms found before t after m.store)
