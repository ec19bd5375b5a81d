-- ===== src/Scripts.antt =====
-- The scripts under scripts/.
pub mod TwapCranker
pub mod SupabaseIndexer
