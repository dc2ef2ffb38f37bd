-- ===== src/Input.antt =====
-- src/input: what the client makes of the events of input devices.
pub mod Axis
pub mod Limelight
pub mod TouchSlot
pub mod Axes
pub mod Players
pub mod Mapping
pub mod Gamepad
pub mod Devices
pub mod TouchSettings
pub mod Keyboard
pub mod Rumble
pub mod Contacts
pub mod Direct
pub mod Touchpad
mod Tests
