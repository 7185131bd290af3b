-- ===== src/FileTransfer.antt =====
-- The file transfer, an application of MIPTP: file_transfer.c, file_server.c, file_transfer_utils.c.
pub mod Links
pub mod Server
pub mod Client
mod Tests
