-- ===== src/Voice.antt =====
-- frontend/src/utils/speechRecognition.ts: voice input.
pub mod Support
pub mod Transcript
pub mod Adapter
pub mod Laws
pub mod Words
mod Tests
