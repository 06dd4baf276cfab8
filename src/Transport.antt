-- ===== src/Transport.antt =====
-- Requests over the data channel of a device (AYLink.Web/src/features/deviceTransport).
pub mod Channel
pub mod Receiver
pub mod Sender
pub mod Runs
pub mod Upload
pub mod Loop
pub mod Flow
pub mod Windows
pub mod Delivery
pub mod Download
pub mod Connection
pub mod Idle
pub mod Pool
pub mod Accounts
pub mod Acquired
pub mod Terminal
pub mod Lines
pub mod Tests
pub mod Attempts
pub mod Messages
