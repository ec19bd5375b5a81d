-- ===== src/Backend.antt =====
-- The backend's services, backend/src.
pub mod Db
pub mod Health
pub mod Ingest
pub mod Routes
pub mod Table
pub mod Live
pub mod Start
