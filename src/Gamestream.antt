-- ===== src/Gamestream.antt =====
-- libgamestream: the client side of the GameStream pairing and session protocol.
pub mod Errors
pub mod Http
pub mod Xml
pub mod Hex
pub mod Client
mod Tests
