-- ===== src/Api.antt =====
-- web/src/lib/api.ts: the client of the admin API, with the session, the token and the notices of
-- an expired login.
pub mod Store
pub mod Request
pub mod Receive
pub mod Session
pub mod Credentials
pub mod Outcome
pub mod Message
pub mod Failures
pub mod Endpoints
pub mod Sent
pub mod Routes
pub mod Served
pub mod Login
pub mod Notice
pub mod Replay
pub mod Tests
