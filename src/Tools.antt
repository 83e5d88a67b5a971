-- ===== src/Tools.antt =====
-- frontend/src/utils/toolDisplay.ts: how a tool call of the timeline is shown.
pub mod Values
pub mod Shell
pub mod Kind
pub mod Display
pub mod Call
pub mod Laws
pub mod Details
pub mod Search
mod Tests
