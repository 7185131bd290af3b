-- ===== src/Miptp.antt =====
-- miptp_daemon.c and miptp_utils.c: the transport layer, go-back-N over the MIP daemon.
pub mod Host
pub mod Send
pub mod Receive
pub mod Main
pub mod Startup
mod Tests
