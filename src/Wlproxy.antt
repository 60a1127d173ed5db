-- ===== src/Wlproxy.antt =====
-- compositor/wlproxy: the Wayland proxy between a zone's clients and the compositor.
pub mod Wire
pub mod Protocol
pub mod Failure
pub mod Objects
pub mod Clipboard
pub mod Tables
pub mod Session
pub mod Policy
mod Tests
