-- ===== src/Routing.antt =====
-- routing_daemon.c and routing_utils.c: the distance-vector daemon beside each MIP daemon.
pub mod Table
pub mod Broken
pub mod Update
pub mod Advertise
pub mod Daemon
pub mod Main
mod Tests
