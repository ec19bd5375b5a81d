-- ===== src/Backend/Health/Tests.antt =====
-- The health check on concrete heartbeats.
use duel_protocol.Prelude.{◌≡◌, ◌≢◌, ◌↔◌, refl, false, none, some}
use duel_protocol.Backend.Health.{stale, running, check_service, after_check, health, http_status}
use duel_protocol.Backend.Health.Laws.{health-eq-503_iff}

fresh_run : check_service 100000 (some (some 40001)) ≡ running
unfolding check_service
fresh_run = refl

old_run : check_service 100000 (some (some 40000)) ≡ stale
unfolding check_service
old_run = refl

-- The database fails and both services are fresh, then one service is stale.
down_run : http_status (health 100000 false (some (some 99000)) none).status ≡ 503
unfolding health http_status after_check check_service
down_run = refl

hidden_run : http_status (health 100000 false (some (some 30000)) none).status ≡ 200
unfolding health http_status after_check check_service
hidden_run = refl

health-eq-503_iff_example :
    let h = health 100000 false (some (some 30000)) (some none) in
    (http_status h.status ≡ 503) ↔ ((false ≡ false) × (h.indexer ≢ stale) × (h.cranker ≢ stale))
health-eq-503_iff_example = health-eq-503_iff 100000 false (some (some 30000)) (some none)
