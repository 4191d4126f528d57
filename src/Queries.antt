-- ===== src/Queries.antt =====
-- web/src/lib/query-keys.ts, query-invalidation.ts and query-client.ts: the keys of the panel's
-- cached queries, and what each change of the data does to the cache.
pub mod Keys
pub mod Cache
pub mod Decode
pub mod Coverage
pub mod Isolation
pub mod Tests
