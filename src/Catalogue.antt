-- ===== src/Catalogue.antt =====
-- scripts/check-e2e-catalog.ts: the flows, the steps of the specs and the rows of the README agree.
pub mod Defs
pub mod Steps
pub mod Claims
pub mod Agreement
pub mod Readme
pub mod Rows
pub mod Checked
mod Tests
