-- ===== src/Pages.antt =====
-- The functions that the pages of frontend/src share: labels, the configuration of a session, what a
-- message, a payload and a prompt show.
pub mod Labels
pub mod Config
pub mod Payload
pub mod Prompt
pub mod Messages
pub mod Laws
pub mod Spread
mod Tests
