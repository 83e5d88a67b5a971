-- ===== src/Blocks.antt =====
-- frontend/src/app/timelineBlocks.ts: the blocks in which a page shows a timeline.
pub mod Context
pub mod Ids
pub mod Groups
pub mod Build
pub mod Shown
pub mod Laws
pub mod Status
pub mod Counts
mod Tests
