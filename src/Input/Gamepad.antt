-- ===== src/Input/Gamepad.antt =====
-- Gamepads in src/input/evdev.c: the part of `evdev_handle_event` that a gamepad reaches.
pub mod State
pub mod Presses
pub mod Motions
pub mod Arrival
pub mod Events
mod Tests
