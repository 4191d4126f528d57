-- ===== src/Reveal.antt =====
-- web/src/lib/use-transient-resource-reveal.ts: the hook that shows decrypted resources for a
-- while, with the token store of web/src/lib/api.ts that it listens to.
pub mod Defs
pub mod Safety
pub mod Order
pub mod Progress
pub mod Loading
mod Tests
