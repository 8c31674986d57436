-- ===== src/Tests.antt =====
-- The definitions at concrete inputs, with toy instances of the libraries.
pub mod Toy
pub mod Drawing
pub mod Texts
pub mod Pictures
pub mod Sessions
pub mod Messages
pub mod Frames
pub mod Palette
pub mod Emojis
pub mod Windows
