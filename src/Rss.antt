-- ===== src/Rss.antt =====
-- RSS tests (net-drv-ts/rss/common_rss.c, change_channels.c): the hash function, the context, the rules,
-- the statistics and the number of channels.
pub mod HashFunction
pub mod Context
pub mod Rules
pub mod Channels
pub mod Prologue
pub mod Stats
mod Tests
