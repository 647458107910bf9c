-- ===== src/Moc.antt =====
-- driver/verimark-moc.c: the match-on-chip operations.
pub mod Commands
pub mod Replies
pub mod Io
pub mod Prints
pub mod Capture
pub mod Enroll
pub mod Verify
pub mod Storage
pub mod Send
