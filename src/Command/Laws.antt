-- ===== src/Command/Laws.antt =====
-- Every command is read back as it was written.
pub mod Basic
pub mod Parts
pub mod Client
pub mod Message
pub mod Server
