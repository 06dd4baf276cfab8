-- ===== src/Cast.antt =====
-- How a cast session schedules its connections (AYLink.Web/src/features/screencast/
-- connectionScheduler.ts).
pub mod Scheduler
pub mod Timers
pub mod Reconnect
mod Tests
