-- ===== src/Backend/Health.antt =====
-- The health check of backend/src/routes/health.ts. Heartbeats are the milliseconds that the
-- services store as text, 0 being the row's first value.
pub mod Laws
mod Tests
use duel_protocol.Prelude.{
  ℕ, ◌-◌, ◌/◌, Option, none, some, Bool, true, false, ltb, ◌==◌, if◌then◌else◌,
}

pub data Overall : Type 0 where
  ok degraded unhealthy : Overall

pub data Service : Type 0 where
  running stale not_started unknown : Service

-- `config.heartbeatStaleMs`
abbrev pub heartbeat_stale_ms : ℕ
heartbeat_stale_ms = 60000

pub record HealthStatus : Type 0 where
  pub status : Overall
  pub database_ok : Bool
  pub indexer : Service
  pub cranker : Service

-- A heartbeat as `getState` gives it: `none` when it throws, `some none` for no row. A heartbeat
-- ahead of the clock is fresh.
unfoldable pub check_service : ℕ → Option (Option ℕ) → Service
check_service now none = unknown
check_service now (some none) = not_started
check_service now (some (some hb)) =
    if hb == 0
    then not_started
    else if ltb ((now - hb) / 1000) (heartbeat_stale_ms / 1000)
    then running
    else stale

-- `if (staleSec >= ...) health.status = "degraded"`
unfoldable pub after_check : Service → Overall → Overall
after_check stale status = degraded
after_check _ status = status

unfoldable pub health : ℕ → Bool → Option (Option ℕ) → Option (Option ℕ) → HealthStatus
health now database indexer_hb cranker_hb =
    let database_status = if database then ok else unhealthy in
    let indexer' = check_service now indexer_hb in
    let indexed = after_check indexer' database_status in
    let cranker' = check_service now cranker_hb in
    record {
      status = after_check cranker' indexed;
      database_ok = database;
      indexer = indexer';
      cranker = cranker';
    }

unfoldable pub http_status : Overall → ℕ
http_status unhealthy = 503
http_status _ = 200

-- GET /health/ready
unfoldable pub ready : Bool → ℕ
ready database = if database then 200 else 503
