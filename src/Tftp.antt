-- ===== src/Tftp.antt =====
-- The TFTP server, internal/tftp.
pub mod Packet
pub mod Netascii
pub mod Options
pub mod Link
pub mod Download
pub mod Upload
pub mod Session
