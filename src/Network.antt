-- ===== src/Network.antt =====
-- What the daemons of two hosts do together.
pub mod Updates
pub mod Requests
pub mod Messages
pub mod Passage
pub mod Files
pub mod Ports
pub mod Pings
pub mod Transport
pub mod Routers
mod Tests
