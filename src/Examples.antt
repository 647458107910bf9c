-- ===== src/Examples.antt =====
-- The properties at concrete inputs.
pub mod Transport
pub mod Replies
pub mod Machines
pub mod Tls
pub mod Gcm
pub mod Interrupt
pub mod Channel
pub mod Exchange
pub mod Device
pub mod Flights
