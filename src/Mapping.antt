-- ===== src/Mapping.antt =====
-- The input mapping of the web client: keyboard and mouse input as touches on the device
-- (AYLink.Web/src/features/inputMapping/).
pub mod Schema
pub mod Commands
pub mod Coordinates
pub mod Validator
pub mod Compiler
pub mod Buckets
pub mod Gestures
pub mod Bursts
pub mod Runtime
pub mod Joystick
pub mod Bindings
pub mod Matching
pub mod MouseLook
pub mod Handlers
pub mod HeldLook
pub mod Release
pub mod UnitSquare
pub mod Cancels
pub mod Presses
mod Tests
pub mod Bridge
