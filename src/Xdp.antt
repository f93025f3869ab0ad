-- ===== src/Xdp.antt =====
-- AF_XDP sockets of the RSS tests: net_drv_xdp_* of net-drv-ts/rss/common_rss.c and common_rss.h.
pub mod Socket
pub mod Release
pub mod Create
pub mod Sockets
pub mod Echo
mod Tests
