-- ===== src/Services.antt =====
-- The application services of the web client that keep shared state (AYLink.Web/src/services/tasks.ts and
-- dialog.ts, AYLink.Web/src/lib/async/latestRequest.ts).
pub mod Tasks
pub mod TaskFields
pub mod TaskInvariant
pub mod TaskLifecycle
pub mod Dialog
pub mod Promises
pub mod LatestRequest
mod Tests
