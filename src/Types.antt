-- ===== src/Types.antt =====
-- frontend/src/types.ts: the data that the server sends and the front end keeps. A field that may be
-- null or absent is an `Option`; the open unions of texts (`"idle" | string`) are texts.
mod Unknown
mod Agent
mod Chat
mod Timeline
mod Sessions
mod Event
unfoldable pub use Unknown.*
pub use Agent.*
pub use Chat.*
pub use Timeline.*
pub use Sessions.*
pub use Event.*
