-- ===== src/Validation.antt =====
-- web/src/lib/validation.ts: the checks of the admin forms.
pub mod Defs
pub mod Slug
pub mod Name
pub mod Webhook
mod Tests
pub mod Hostname
pub mod Number
