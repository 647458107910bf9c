-- ===== src/Transport.antt =====
-- driver/verimark-transport.c and the blocking transport of driver/verimark.c.
pub mod Command
pub mod Sync
pub mod Agree
pub mod Reads
pub mod Delivers
