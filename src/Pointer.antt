-- ===== src/Pointer.antt =====
-- The ids under which the web client sends pointers to the device (AYLink.Web/src/features/screencast/
-- scrcpyPointerIdTracker.ts).
pub mod Tracker
pub mod Distinct
mod Tests
