-- ===== src/Tests.antt =====
-- The theorems at concrete inputs.
mod Transfers
mod Logs
mod Meetings
mod Packets
mod Servers
mod Supervision
mod Settings
mod Sessions
mod Programs
mod Sites
