-- ===== src/Metanet.antt =====
-- net/metanet.c, the driver that joins other drivers into a packet forwarding network.
pub mod Addr
pub mod State
pub mod Forward
pub mod Table
pub mod Discover
pub mod Receive
pub mod Launch
mod Tests
