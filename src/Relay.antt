-- ===== src/Relay.antt =====
-- crates/triptorrent-relay/src/lib.rs: route pairing and registration frames, with the client's
-- side of the registration in crates/triptorrent-net/src/lib.rs.
pub mod State
pub mod Registration
pub mod Admission
mod Tests
