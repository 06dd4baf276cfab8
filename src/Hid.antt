-- ===== src/Hid.antt =====
-- The virtual HID mouse and keyboard of the web client (AYLink.Web/src/lib/input/hidProtocol.ts and
-- hidSession.ts).
pub mod Protocol
pub mod Layout
pub mod Reports
pub mod Session
pub mod Receiver
pub mod Accepted
pub mod Devices
pub mod Keys
pub mod Presses
mod Tests
