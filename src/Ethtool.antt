-- ===== src/Ethtool.antt =====
-- Tests of net-drv-ts/ethtool, and the tags of net-drv-ts/lib/net_drv_ethtool.c.
pub mod TxCoalesce
pub mod Options
pub mod Modes
