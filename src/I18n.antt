-- ===== src/I18n.antt =====
-- web/src/lib/i18n.tsx: the messages in their languages, and what picks one.
pub mod Entry
pub mod Pt
pub mod En
pub mod Es
pub mod Defs
pub mod Places
pub mod Aligned
pub mod Filled
pub mod Errors
pub mod Messages
pub mod Human
pub mod Stored
pub mod Provider
mod Tests
