-- ===== src/Ping.antt =====
-- The ping client and the ping server: ping_client.c and ping_server.c.
pub mod Client
pub mod Server
mod Tests
