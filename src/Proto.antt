-- ===== src/Proto.antt =====
-- planning/tenancit/proto/routes: the store of the prototype, its example data, and the rules of
-- its tenant page.
pub mod Types
pub mod Seed
pub mod Store
pub mod Tenants
pub mod Catalog
pub mod Action
pub mod Persist
pub mod Ids
pub mod Numbered
pub mod SeedIds
pub mod Unique
pub mod Keeping
pub mod Acts
pub mod Page
pub mod OneActive
pub mod Visits
pub mod Kinds
pub mod Orderly
pub mod Runs
mod Tests
