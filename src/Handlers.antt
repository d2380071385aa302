-- ===== src/Handlers.antt =====
-- internal/handlers: the pages of the helper.
pub mod Paths
pub mod Watch
pub mod Server
pub mod Routes
pub mod Sessions
pub mod Browse
pub mod Download
pub mod Archive
pub mod Wizard
pub mod Serving
mod Tests
