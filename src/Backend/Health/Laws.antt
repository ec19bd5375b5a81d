-- ===== src/Backend/Health/Laws.antt =====
-- What the status code of the health check says.
use duel_protocol.Prelude.{
  ℕ, suc, ◌+◌, ◌≤◌, ◌≡◌, refl, ◌≢◌, ◌↔◌, Option, some, Bool, true, false, arith, if◌then◌else◌,
}
use duel_protocol.Backend.Health.{
  Overall, ok, degraded, unhealthy, Service, running, stale, check_service, not_started, unknown,
  after_check, health, http_status,
}

-- A service is stale exactly when the heartbeat read, which is not 0, is 60 seconds old or older.
pub check_service-eq-stale_iff :
    (now hb : ℕ) → (check_service now (some (some (suc hb))) ≡ stale) ↔ (60000 + suc hb ≤ now)
unfolding check_service
check_service-eq-stale_iff now hb = ground arith

still_up : (s : Service) (o : Overall) → o ≢ unhealthy → after_check s o ≢ unhealthy
unfolding after_check
still_up stale o h = λ e. cc
still_up running o h = h
still_up not_started o h = h
still_up unknown o h = h

up_lem : (o : Overall) → o ≢ unhealthy → http_status o ≢ 503
unfolding http_status
up_lem ok h = omega arith
up_lem degraded h = omega arith
up_lem unhealthy h = absurd (h refl)

combined_iff :
    (database : Bool) (i c : Service)
    → (http_status (after_check c (after_check i (if database then ok else unhealthy))) ≡ 503)
      ↔ ((database ≡ false) × (i ≢ stale) × (c ≢ stale))
unfolding http_status after_check
combined_iff true i c =
    let healthy = up_lem _ (still_up c _ (still_up i ok (λ e. cc))) in
    (λ e. absurd (healthy e), λ p. cc)
combined_iff false i c = ground arith

-- The check answers 503 exactly when the database fails and neither service was read as stale.
pub health-eq-503_iff :
    (now : ℕ) (database : Bool) (i c : Option (Option ℕ))
    → let h = health now database i c in
      (http_status h.status ≡ 503)
      ↔ ((database ≡ false) × (h.indexer ≢ stale) × (h.cranker ≢ stale))
unfolding health http_status after_check
health-eq-503_iff now database i c =
    combined_iff database (check_service now i) (check_service now c)
