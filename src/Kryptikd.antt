-- ===== src/Kryptikd.antt =====
-- compartments/kryptikd: the daemon that launches and confines zones.
pub mod Seccomp
pub mod Caps
pub mod Policy
pub mod Time
pub mod Update
pub mod Broker
mod Tests
