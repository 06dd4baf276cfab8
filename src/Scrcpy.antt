-- ===== src/Scrcpy.antt =====
-- The scrcpy control protocol of the web client
-- (AYLink.Web/src/features/screencast/scrcpyControlProtocol.ts).
pub mod Protocol
pub mod Keycodes
pub mod Decoding
pub mod RoundTrip
mod Tests
