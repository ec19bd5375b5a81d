-- ===== src/App/Create/Gates.antt =====
-- The guards of initialize_market.rs and create_compare_duel.rs on the schedule, under
-- programs/duel/src/instructions.
use duel_protocol.Prelude.{ℕ, ◌-◌, Bool, leb, ltb, ◌&&◌}

-- `now` is the chain's clock.
unfoldable pub accepts_schedule : ℕ → ℕ → ℕ → ℕ → ℕ → Bool
accepts_schedule min_market_duration now deadline twap_window twap_interval =
    let duration = deadline - now in
    ltb now deadline
    && leb min_market_duration duration
    && ltb 0 twap_window
    && ltb twap_window duration
    && leb 10 twap_interval
    && leb twap_interval 300
