-- ===== src/App.antt =====
-- src/app: the senders, their share of the display, and the configuration.
pub mod Config
pub mod Panel
pub mod Geometry
pub mod Usb
pub mod Dial
pub mod Attempt
pub mod Pacing
pub mod Frames
pub mod Signals
pub mod Pause
