-- ===== src/Settlement.antt =====
-- Settlements: their records (state.rs), the map that keeps them with its index by seller, and the
-- recovery of a stale one (lib.rs).
pub mod Record
pub mod Store
pub mod Recovery
