-- ===== src/Command.antt =====
-- phira-mp-common/src/command.rs: the messages of the two ends, and how they are written.
pub mod Types
pub mod Wire
pub mod Valid
pub mod Laws
pub mod Delivery
