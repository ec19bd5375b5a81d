-- ===== src/App.antt =====
-- What the pages show of a market and its clock, app/app/lib/program.ts. `Date.now()` is in whole
-- milliseconds and market times in whole seconds, so the source's fractional comparisons are made
-- in milliseconds here.
pub mod Laws
pub mod Pda
pub mod Estimate
pub mod Transaction
pub mod Duel
pub mod CompareDuel
pub mod Create
pub mod Listing
pub mod Tokens
pub mod Format
mod Tests
use duel_protocol.Prelude.{
  ℕ, ◌+◌, ◌-◌, ◌*◌, ◌/◌, ◌%◌, Bool, true, false, Option, none, some, leb, ltb, ◌&&◌, if◌then◌else◌,
}

pub data MarketPhase : Type 0 where
  active twap resolved : MarketPhase

-- What `getMarketPhase` and `getComparePhase` read of an account.
pub record Schedule : Type 0 where
  pub deadline : ℕ
  pub twap_window : ℕ
  pub is_resolved : Bool

-- `now >= deadline - window && now < deadline`, over the integers.
abbrev pub in_window : ℕ → Schedule → Bool
in_window now_ms m =
    leb (1000 * m.deadline) (now_ms + 1000 * m.twap_window) && ltb now_ms (1000 * m.deadline)

abbrev pub past_deadline : ℕ → Schedule → Bool
past_deadline now_ms m = leb (1000 * m.deadline) now_ms

unfoldable pub get_market_phase : ℕ → Schedule → MarketPhase
get_market_phase now_ms m =
    if m.is_resolved
    then resolved
    else if in_window now_ms m
    then twap
    else if past_deadline now_ms m
    then resolved
    else active

unfoldable pub get_compare_phase : ℕ → Schedule → MarketPhase
get_compare_phase now_ms duel =
    if duel.is_resolved
    then resolved
    else if in_window now_ms duel
    then twap
    else if past_deadline now_ms duel
    then resolved
    else active

-- The text of `formatCountdown` by the numbers in it.
pub data Countdown : Type 0 where
  ended : Countdown
  days_hours : ℕ → ℕ → Countdown
  hours_minutes : ℕ → ℕ → Countdown
  minutes_seconds : ℕ → ℕ → Countdown
  seconds : ℕ → Countdown

-- `now` is in whole seconds here, as the source floors it.
unfoldable pub format_countdown : ℕ → ℕ → Countdown
format_countdown now deadline =
    let diff = deadline - now in
    let d = diff / 86400 in
    let h = diff % 86400 / 3600 in
    let m = diff % 3600 / 60 in
    let s = diff % 60 in
    if leb deadline now
    then ended
    else if ltb 0 d
    then days_hours d h
    else if ltb 0 h
    then hours_minutes h m
    else if ltb 0 m
    then minutes_seconds m s
    else seconds s
