-- ===== src/App/Laws.antt =====
-- Phases only go forward, and the countdown shows the time left.
use duel_protocol.Prelude.{ℕ, ◌+◌, ◌-◌, ◌*◌, ◌≤◌, ◌<◌, ◌≡◌, ◌↔◌, false, arith, ◌&&◌, not}
use duel_protocol.App.{
  MarketPhase, active, twap, resolved, Schedule, get_market_phase, get_compare_phase, Countdown,
  ended, days_hours, hours_minutes, minutes_seconds, seconds, format_countdown,
}

abbrev pub rank : MarketPhase → ℕ
rank active = 0
rank twap = 1
rank resolved = 2

-- As time passes, on one schedule whose resolution is never undone, the phase of a market only
-- goes forward, from active to twap to resolved, and compare duels have the same phases.
pub get_market_phase_mono :
    (now now' : ℕ) (m m' : Schedule)
    → now ≤ now'
    → m'.deadline ≡ m.deadline
    → m'.twap_window ≡ m.twap_window
    → (m.is_resolved && not m'.is_resolved) ≡ false
    → (rank (get_market_phase now m) ≤ rank (get_market_phase now' m'))
      × (get_compare_phase now m ≡ get_market_phase now m)
unfolding get_market_phase get_compare_phase
get_market_phase_mono now now' m m' later same_end same_window kept = ground arith

-- The seconds that a countdown stands for, and the size of its last unit.
abbrev pub shown : Countdown → ℕ
shown ended = 0
shown (days_hours d h) = d * 86400 + h * 3600
shown (hours_minutes h m) = h * 3600 + m * 60
shown (minutes_seconds m s) = m * 60 + s
shown (seconds s) = s

abbrev pub unit : Countdown → ℕ
unit ended = 1
unit (days_hours d h) = 3600
unit (hours_minutes h m) = 60
unit (minutes_seconds m s) = 1
unit (seconds s) = 1

-- The countdown is the time left rounded down to its last unit, and reads "Ended" exactly from the
-- deadline on.
pub format_countdown_bounds :
    (now deadline : ℕ)
    → let c = format_countdown now deadline in
      (shown c ≤ deadline - now)
      × (deadline - now < shown c + unit c)
      × ((c ≡ ended) ↔ (deadline ≤ now))
unfolding format_countdown
format_countdown_bounds now deadline = ground arith
