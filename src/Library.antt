-- ===== src/Library.antt =====
-- Common test API (net-drv-ts/lib/net_drv_ts.c).
pub mod Feature
pub mod Driver
pub mod Address
pub mod Link
pub mod Neighbours
pub mod Connection
pub mod Traffic
mod Tests
