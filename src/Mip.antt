-- ===== src/Mip.antt =====
-- mip_daemon.c and mip_daemon_utils.c: the network layer, between the applications, the routing
-- daemon and the raw socket.
pub mod Wire
pub mod Queue
pub mod Link
pub mod Forward
pub mod Daemon
pub mod Loop
pub mod Main
mod Tests
