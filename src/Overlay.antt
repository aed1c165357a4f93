-- ===== src/Overlay.antt =====
-- crates/triptorrent-overlay/src/lib.rs: the bootstrap registry and its request handler.
pub mod State
pub mod Registry
pub mod Service
mod Tests
