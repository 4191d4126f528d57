-- ===== src/BasePath.antt =====
-- web/src/lib/runtime-base-path.ts: where the panel is served, and the URLs that it calls.
pub mod Defs
pub mod Segments
pub mod Check
pub mod Endpoint
pub mod Login
pub mod Tests
