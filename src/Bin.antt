-- ===== src/Bin.antt =====
-- phira-mp-common/src/bin.rs.
pub mod Reader
pub mod Faithful
pub mod Uleb
pub mod Utf8
pub mod Data
pub mod Laws
pub mod MapLaws
pub mod Crates
