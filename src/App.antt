-- ===== src/App.antt =====
-- frontend/src/App.tsx: the state of the page, and what events of the server, responses and actions do to
-- it.
pub mod State
pub mod Agents
pub mod AgentsLaws
pub mod Details
pub mod Recovery
pub mod Initial
pub mod Busy
pub mod Messages
pub mod Actions
pub mod Resolve
pub mod Removal
pub mod Opened
pub mod Steps
pub mod Tidy
mod Tests
