-- ===== src/Stored.antt =====
-- What the browser keeps between visits: frontend/src/app/workspaceAgentNavigation.ts and
-- frontend/src/app/lastSessionProfile.ts.
pub mod Objects
pub mod Navigation
pub mod Profiles
pub mod Resolve
pub mod ObjectLaws
pub mod NavigationLaws
pub mod Remembered
pub mod Opened
pub mod ProfileLaws
pub mod RoundTrip
pub mod Controls
mod Tests
