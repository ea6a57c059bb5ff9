-- ===== src/Session.antt =====
-- phira-mp-server/src/session.rs: what the server does for a command of an authenticated user.
pub mod Handler
pub mod Rooms
pub mod Game
pub mod Process
pub mod Guards
pub mod Effects
pub mod Tame
pub mod Hosted
pub mod Lingering
pub mod Untranslated
pub mod Mirror
