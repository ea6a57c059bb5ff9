-- ===== src/Tests.antt =====
-- Examples: the library's theorems at concrete inputs.
pub mod Order
pub mod Wire
pub mod Rooms
pub mod Client
pub mod Server
pub mod L10n
pub mod Mirror
pub mod Macros
mod Entry
mod Hosted
mod Play
pub mod Untranslated
