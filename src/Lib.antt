-- ===== src/Lib.antt =====
-- Verification of the C code of the network driver test suite: the library of common test routines
-- (net-drv-ts/lib), the routines shared by the RSS tests (net-drv-ts/rss/common_rss.c) and the
-- routines that run on the test agents (talib_net_drv_ts/rpc.c), the functions of the suite's
-- prologue and of the RSS prologue (net-drv-ts/prologue.c, net-drv-ts/rss/prologue.c), the tests
-- net-drv-ts/ethtool/tx_coalesce.c, net-drv-ts/rx_path/rx_coalesce_usecs.c and
-- net-drv-ts/rx_path/rx_coalesce_frames.c and, in part,
-- net-drv-ts/ethtool/autoneg_advertise.c, net-drv-ts/ethtool/link_fixed_mode.c and
-- net-drv-ts/rss/change_channels.c.
--
-- The program. A test is a C program. It calls the library, the library reads and writes the
-- configuration tree of the agents (`tapi_cfg_*`, `cfg_*`) and asks RPC servers on the agents to make
-- system calls (`rpc_*`). The agents run three routines of the suite's own, which are also called
-- over RPC. None of TAPI, the configurator, the C library on the agents and the Linux kernel is in
-- this repository: each module takes the calls that its functions make as a record of operations
-- (PhyOps, FeatureOps, ModuleOps, MacOps, PciParamOps, SocketOps, XdpOps, NicOps, FlowOps,
-- HashFuncOps, RssOps, RuleOps, LinkOps, NeighOps, UpOps, CheckOps, EchoOps, StatsOps, ChannelOps,
-- CoalesceOps, OptionOps, PtpOps, PciOps, TagOps, ModulesOps, Ipv6Ops, PrologueOps, RigOps,
-- DoubleOps) on a type W of worlds,
-- and, where a theorem needs it, their
-- documented behaviour as a record of laws beside it (PhyLaws, SocketLaws, XdpLaws, NicLaws,
-- FlowLaws, HashFuncLaws, RuleLaws, LinkLaws, CheckLaws, StatsLaws, CoalesceLaws, OptionLaws,
-- PtpLaws, TagLaws, DetectionLaws, RigLaws). The Tests modules give concrete operations and laws.
--
-- How the code is modelled. Base/Effect.antt has the outcome of a call: a value, a `te_errno`
-- (Base/Errno.antt), or the end of the test by TEST_SKIP, TEST_VERDICT, TEST_FAIL or TEST_STOP. A
-- function that acts on the world is a state passing function M W A. The agent's and the interface's
-- names, which no function changes, are left out of the arguments. Logging is left out. Strings are
-- lists of bytes without the closing zero (Base/CString.antt), and an array with its length is a
-- list. Machine integers keep their bounds and their wrap-around where the code depends on them:
-- ULONG_MAX and INT_MAX in mode names, 32 bits in queue numbers, in memory sizes of AF_XDP sockets
-- and in the counters of the Rx coalescing tests, 64 bits in packet identifiers.
--
-- The parts.
--   Base, Base/*: notation, Boolean tests, lists, C strings, error codes and outcomes.
--   Phy (net-drv-ts/lib/net_drv_phy.c, net_drv_phy.h): Phy/ModeName the names of link modes,
--     net_drv_phy_parse_speed_duplex_mode(); Phy/Config the settings of the configuration tree;
--     Phy/State net_drv_phy_saved_state with its save and restore; Phy/Apply
--     net_drv_phy_apply_autoneg_modes() and net_drv_phy_apply_fixed_mode(); Phy/Checks
--     net_drv_phy_lp_tree_is_exposed() and the net_drv_phy_check_* functions.
--   Library (net-drv-ts/lib/net_drv_ts.c): Library/Feature interface features; Library/Driver the
--     driver's module; Library/Address the MAC address and PCI parameters; Library/Traffic
--     net_drv_sendto_recv_check_gen(); Library/Link net_drv_set_phy_link() and the conversions of the
--     local parameters; Library/Neighbours the neighbour nodes, net_drv_wait_up_gen() and
--     net_drv_set_mtu(); Library/Connection net_drv_conn_check(), net_drv_cat_all_files() and
--     net_drv_ts_add_vlan().
--   Xdp (net-drv-ts/rss/common_rss.c, common_rss.h): Xdp/Socket creation and destruction of an AF_XDP
--     socket; Xdp/Sockets those of a list of sockets; Xdp/Release, Xdp/Create and
--     Xdp/Sockets/Cleanup what the agent holds in the course of it; Xdp/Echo net_drv_xdp_echo().
--   Rss (net-drv-ts/rss/common_rss.c): Rss/HashFunction net_drv_rss_check_set_hfunc();
--     Rss/Context net_drv_rss_ctx, its key and net_drv_rss_predict(); Rss/Rules the Rx
--     rules, net_drv_add_tcpudp_rx_rule() and the checks before it; Rss/Stats send_check_common() and
--     the two functions on the statistics of the Rx queues; Rss/Channels the choice of a number of
--     combined channels and the indirection table of net-drv-ts/rss/change_channels.c; Rss/Prologue
--     net-drv-ts/rss/prologue.c.
--   Agent (talib_net_drv_ts/rpc.c): Agent/Payload the payload of a packet in network byte order;
--     Agent/Send and Agent/Receive send_pkts_exact_delay() and recv_pkts_exact_delay();
--     Agent/Rules too_many_rx_rules().
--   Flow (net-drv-ts/lib/net_drv_data_flow.c, net_drv_data_flow.h): ends, start, finish and
--     destruction of a data flow.
--   Ethtool (net-drv-ts/ethtool, net-drv-ts/lib/net_drv_ethtool.c): Ethtool/TxCoalesce the test
--     tx_coalesce.c from the check of the support to the end of the cleanup; Ethtool/Options the tags
--     for options that the ethtool program lacks; Ethtool/Modes the choice of link modes in
--     autoneg_advertise.c and link_fixed_mode.c, on the saved states of Phy/State.
--   Ptp (net-drv-ts/lib/net_drv_ptp.c): net_drv_open_ptp_fd() and net_drv_is_ptp_supported().
--   Prologue (net-drv-ts/prologue.c): Prologue/Pci the counts of the PCI device; Prologue/Tags the
--     other tags; Prologue/Setup load_required_modules(), disable_fw_lldp() and prepare_ipv6().
--   RxPath (net-drv-ts/rx_path/rx_coalesce_usecs.c, rx_coalesce_frames.c): RxPath/PacketId the number
--     of a captured packet; RxPath/Capture what the callbacks of both tests share; RxPath/Usecs and
--     RxPath/Frames the callbacks and statistics of each; RxPath/Rig the steps that the two main()
--     share, with the cleanup; RxPath/Usecs/Run and RxPath/Frames/Run the two main().
--   Basic (net-drv-ts/basic/mtu_tcp.c): Basic/MtuTcp the callback process_tcp(), the check of
--     TCP_MAXSEG and the sizes of data; Basic/MtuTcp/Rounds the loop of main() with its checks.
--
-- How the parts interact. RxPath/PacketId reads what Agent/Payload writes. The Rx coalescing tests change
-- settings by the calls of Ethtool/TxCoalesce, under the laws of Ethtool/TxCoalesce/Settings.
-- Base/Preservation has the rules by which a `do` block is shown to leave a predicate of the world
-- true; Ethtool/TxCoalesce/Settings uses them for the settings that a call does not touch.
-- Prologue/Tags reads the local parameters by the functions of Library/Link. Xdp/Echo works
-- on the sockets of Xdp/Socket.
--
-- Loops and fuel. Loops over arrays and up to a number are structural recursion. The endless loops of
-- the agent's routines are recursion on the list of what the clock or the socket answers. The
-- receiving loop of net_drv_sendto_recv_check_gen() takes fuel; the length of the data is
-- enough where no recv() of a readable socket returns 0, for each round then adds a byte.
-- too_many_rx_rules() is stated for any number of ports, UINT16_MAX in the code. The wait for neighbour
-- nodes makes the 100 attempts of the code, and the choices of random numbers the 10000 of
-- MAX_ATTEMPTS. The loop that halves a number takes the number itself as fuel, which is enough, as
-- each round halves it.
--
-- Not modelled. The other test programs, which are scenarios over the library; net_drv_rpc.c, which
-- passes arguments on; the checks of net_drv_ptp.c in floating point and the formatting of the
-- device's path; the order of the calls in the main() of net-drv-ts/prologue.c; of
-- net_drv_data_flow.c the forking of servers and the random parameters of the sender;
-- of too_many_rx_rules() the conversion of addresses and the error of an unknown socket type; the
-- check of NULL arguments in net_drv_is_ptp_supported(); the set-up and the cleanup of mtu_tcp.c. Where the code
-- compares a te_errno with 0 by `<`, the model takes the branch of a failure for one, as the type is
-- not in this repository.
pub mod Base
pub mod Basic
pub mod Phy
pub mod Library
pub mod Xdp
pub mod Rss
pub mod Agent
pub mod Flow
pub mod Ethtool
pub mod Ptp
pub mod Prologue
pub mod RxPath
