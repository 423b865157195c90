-- ===== src/Display.antt =====
-- src/display: what the program tells the display driver.
pub mod Edid
pub mod Settings
