-- ===== src/App/Tests.antt =====
-- Runs of the pages' helpers, and instances of their theorems.
use duel_protocol.Prelude.{◌≡◌, refl, false}
use duel_protocol.App.{Schedule, twap, get_market_phase, days_hours, format_countdown}

abbrev market : Schedule
market = record { deadline = 1000; twap_window = 300; is_resolved = false }

phase_run : get_market_phase 700000 market ≡ twap
unfolding get_market_phase
phase_run = refl

format_countdown_run : format_countdown 10 100000 ≡ days_hours 1 3
unfolding format_countdown
format_countdown_run = refl
