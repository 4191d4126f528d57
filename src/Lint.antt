-- ===== src/Lint.antt =====
-- web/scripts/lint-colocated-routes.mjs: which routes depend on a file.
pub mod Search
pub mod Sound
pub mod Complete
pub mod Fuel
pub mod Consumers
pub mod Tests
