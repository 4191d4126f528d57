-- ===== src/Panel.antt =====
-- The panel's readings of its data: web/src/lib/tenant-overview.ts, idempotency.ts, avatar.ts and
-- admin-navigation.ts.
pub mod Summary
pub mod Readiness
pub mod Attempt
pub mod Navigation
pub mod Permitted
pub mod Avatar
pub mod Tests
