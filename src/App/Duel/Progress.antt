-- ===== src/App/Duel/Progress.antt =====
-- The progress of the TWAP window against the phase shown.
use duel_protocol.Prelude.{
  ℕ, ◌+◌, ◌*◌, ◌/◌, ◌-◌, ◌≤◌, ◌≡◌, ◌↔◌, none, some, false, arith, Bool-cases, inl, inr, some-inj,
  none-ne-some, sym, ap, ltb, min, if◌then◌else◌,
}
use duel_protocol.App.{Schedule, active, resolved, get_market_phase}
use duel_protocol.App.Duel.{twap_progress}

most_of_window : (w i : ℕ) → (if ltb 0 i then w / i else 0) * i ≤ w
most_of_window w i = grind arith

fits : (w i most : ℕ) → most ≡ (if ltb 0 i then w / i else 0) → most * i ≤ w
fits w i most is =
    let bound : (if ltb 0 i then w / i else 0) * i ≤ w = most_of_window w i in rw is bound

complete :
    (now_ms : ℕ) (m : Schedule) (elapsed : ℕ)
    → m.is_resolved ≡ false
    → ltb (now_ms / 1000 + m.twap_window) m.deadline ≡ false
    → elapsed ≡ min (now_ms / 1000 + m.twap_window - m.deadline) m.twap_window
    → (elapsed ≤ m.twap_window)
      × ((elapsed ≡ m.twap_window) ↔ (get_market_phase now_ms m ≡ resolved))
unfolding get_market_phase
complete now_ms m elapsed unresolved begun is = ground arith

-- For a market that is not resolved on the chain, the progress is hidden exactly while the phase is
-- active; the seconds elapsed are at most the window, and fill it exactly once the phase is
-- resolved, and the samples counted fit the window.
pub twap_progress-phase :
    (now_ms : ℕ) (m : Schedule) (interval samples : ℕ)
    → m.is_resolved ≡ false
    → ((twap_progress (now_ms / 1000) m interval samples ≡ none)
        ↔ (get_market_phase now_ms m ≡ active))
      × ((elapsed n most : ℕ)
          → twap_progress (now_ms / 1000) m interval samples ≡ some (elapsed, n, most)
          → (elapsed ≤ m.twap_window)
            × ((elapsed ≡ m.twap_window) ↔ (get_market_phase now_ms m ≡ resolved))
            × (most * interval ≤ m.twap_window))
unfolding twap_progress get_market_phase
twap_progress-phase now_ms m interval samples unresolved = (
  ground arith,
  λ elapsed n most shown. elim (Bool-cases (ltb (now_ms / 1000 + m.twap_window) m.deadline)) [
    | inl before ↦ absurd (none-ne-some (rw before at shown))
    | inr begun ↦
        let pair = some-inj (rw begun at shown) in
        let time = complete now_ms m elapsed unresolved begun (sym (ap (λ p. p.0) pair)) in
        (time.0, time.1, fits m.twap_window interval most (sym (ap (λ p. p.2) pair)))
  ],
)
