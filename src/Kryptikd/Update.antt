-- ===== src/Kryptikd/Update.antt =====
-- compartments/kryptikd/src/update.rs: zone 0's side of the update channel.
pub mod Versions
pub mod Pointer
pub mod Listing
pub mod Store
pub mod Put
pub mod Server
pub mod Stages
pub mod Names
pub mod Takes
pub mod Sizes
pub mod Unmoved
pub mod Rollback
pub mod Arrival
mod Tests
