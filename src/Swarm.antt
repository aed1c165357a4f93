-- ===== src/Swarm.antt =====
-- crates/triptorrent-swarm/src/lib.rs: the piece scheduler and the rate schedule.
pub mod Scheduler
pub mod Rate
