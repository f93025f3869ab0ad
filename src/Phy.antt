-- ===== src/Phy.antt =====
-- PHY settings of an interface (net-drv-ts/lib/net_drv_phy.c, net_drv_phy.h): names of link modes,
-- saving and restoring the administrative settings, applying a requested mode and checking it.
pub mod ModeName
pub mod Config
pub mod State
pub mod Apply
pub mod Checks
mod Tests
