-- ===== src/Video.antt =====
-- The health of a video stream in the web client (AYLink.Web/src/features/screencast/
-- videoStreamStateMachine.ts and videoRecoveryDecision.ts).
pub mod StateMachine
pub mod Stability
pub mod Recovery
pub mod Decisions
mod Tests
