-- ===== src/Composer.antt =====
-- `PromptComposer` of frontend/src/features/sessions/SessionPane.tsx: the draft of a prompt, its images,
-- and the recording of a voice. The variables of the component are a record, and each handler of the
-- page, of the recorder and of a promise is an event.
pub mod Files
pub mod State
pub mod Draft
pub mod Recording
pub mod Step
pub mod Leaves
pub mod Handled
pub mod Streams
pub mod Lost
pub mod Images
pub mod Faults
mod Tests
