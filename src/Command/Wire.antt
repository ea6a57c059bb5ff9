-- ===== src/Command/Wire.antt =====
-- The implementations of `BinaryData` in command.rs, by hand or derived.
pub mod Basic
pub mod Parts
pub mod Client
pub mod Message
pub mod Server
