-- ===== src/Lib.antt =====
-- dpdk-tools: the packet path of the `dpdkx` library and the wire format of its `sockperf` client.
--
-- The program. A `device` owns a NIC. On each core a scheduler (dpdkx/jobs.cpp) runs jobs until they
-- are done or `running` is cleared: an `rx_job` takes a burst of packets off an rx queue and hands
-- each to the channel that is attached to its UDP port, and a `tx_job` takes packets off a ring and
-- gives them to the NIC. Threads attach and detach channels while the jobs run; the `sinks` that say
-- which channel has which port are a vector that is copied, changed and exchanged, and that a job
-- loads again from time to time. A sender gets a tx queue of its own from the device, or shares a
-- ring. The client marks its messages with a header, a sequence number that names its tx queue, and
-- times of the device's clock.
--
-- Files and sources.
--   Common: Boolean tests on the native numbers, lists, a memory of bytes with little-endian loads and
--     stores, byte swaps, and bit masks. The host is little-endian.
--   Sockperf/MessageType, Sockperf/Message: sockperf/sockperf.hpp. Each accessor keeps its name; the
--     overload that writes is `set_` with that name. Sockperf/Seqn: sockperf/x.hpp.
--   Dpdkx/Proto: constants of the protocols. Dpdkx/Mbuf: the fields of `rte_mbuf` that the library
--     uses. Dpdkx/Mbuf/L2: `eth_proto` and `update_l2size` of dpdkx/detail/utils.hpp. Dpdkx/Mbuf/Build:
--     dpdkx/mbuf.cpp.
--   Dpdkx/Clock: `retry` and `ns_timer` (dpdkx/utils.hpp), `mul_div` (dpdkx/detail/numerics.hpp),
--     `estimate_clock_freq` (dpdkx/detail/utils.cpp), and `timestamp_fix`, `read_clock`, `link_status`
--     of the device (dpdkx/device.hpp, dpdkx/device.cpp).
--   Dpdkx/Jobs: dpdkx/jobs.cpp. `pass` is the `for` loop of `run_jobs_once`; `cycles` and `run_loop`
--     are the inner and the outer loop that `run_exclusive` and `run_jobs` share.
--   Dpdkx/Device/TxJob: `device::tx_job` of dpdkx/device.cpp: `refill` fills the array from the ring,
--     `transmit` is the rest of `process`.
--   Dpdkx/Device/RxJob: `device::rx_job`: `find_rx_channel` is the lambda of that name, `kind` the
--     `switch` before a channel is looked for, `dispatch` the loop over the burst, whose `post_process` is
--     the index in `buffers_`.
--   Dpdkx/Device/TxQueues: `tx_queue`, `service_tx`, `tx_ring`, the part of the constructor that sets
--     their state, and `sink::setup_sink` (dpdkx/sink.cpp). Dpdkx/Device/Ports: `next_src_port`.
--   Dpdkx/Device/Sinks: `attach_rx`, `detach_rx`, `join_mcast`, `leave_mcast`, and the routes of a
--     `flow::rx_queue` (dpdkx/flow/rx_queue.cpp); Sinks/Stub: the flow that a queue begins with.
--     Dpdkx/Jobs/FlowQueue: its `run_exclusive` (dpdkx/jobs.cpp), on fuel above the poll at which jobs
--     are stopped.
--   Dpdkx/Device/Host: what a device knows of itself and its neighbours. Dpdkx/Device/Address:
--     `ether_address`. Dpdkx/Device/Service: `process_rx_packets`; `serve` is its `switch`.
--     Dpdkx/Device/Mcast: `mcast_group` (dpdkx/mcast.cpp, dpdkx/proto/igmp.hpp). Dpdkx/Device/Make: the
--     constructor of the device; `lay_out` is what it decides, `make_device` the calls it makes.
--   Dpdkx/Jobs/Address: `dpdkx::ether_address` of dpdkx/jobs.cpp, which asks a device again and again.
--   Dpdkx/UdpTx: dpdkx/udptx_channel.cpp; `fill` is the loop over the segments of `send`.
--   Dpdkx/Config/Sockets: dpdkx/config/socket.cpp; its children say what the cores of a socket are.
--   Dpdkx/Config/Options and Devices: dpdkx/config/program_options.cpp: `eal_option`, and
--     `devices_configuration`, whose loop body is `configure_port`, `apply_workarounds` and the `device_matcher`; Config/Nics: `get_nic_info`.
--   Dpdkx/Described: values described by their members. Described/Schema: the members
--     (dpdkx/config/io.hpp), Described/Tables: the names of flags (dpdkx/io.hpp), Described/Loading:
--     `load_value` (dpdkx/config/program_options.cpp), Described/Printing: the printing
--     (dpdkx/config/io.cpp, dpdkx/io.cpp).
--   SockperfCli/Packet, Channel, TxJob, Warmup, Latency: sockperf_cli/utils.cpp and utils.hpp: the
--     packets, `sockperf_channel`, `tx_job` and its `warmup`, and `latency_test_job`.
--     SockperfCli/Stats: sockperf_cli/stats.cpp and stats.hpp. SockperfCli/Run: `run` of
--     sockperf_cli/sockperf.cpp, as the calls it makes to start jobs on the cores and to wait for them;
--     Run/Plan is what it settles on before. Run/Lcores is the EAL's side: which call fits which
--     state of the cores; there only receivers poll until they are stopped, and whether a sender ends is
--     the matter of TxJob.
--   The modules below a component, Laws mostly, hold its theorems; Examples applies them.
--
-- Conventions. Integers are natural numbers with the wrap-around of their C++ type written out.
-- Undefined behaviour, an index past the end or a division by zero, is `none`. What the NIC, the
-- clocks, the flow rules and other threads answer is an argument. A pointer to a channel is a number.
--
-- Fuel. `update_l2size` runs on fuel above the length of the data, as each tag takes four bytes of it;
-- `next_src_port` ends in its first round; `run_loop` runs until jobs are stopped, and needs as much
-- fuel as there are steps until then. The loops of `attach_rx` and `detach_rx` run once
-- for each vector that another thread publishes in between.
--
-- Fuel, continued. The loop of `updtx_channel::send` takes a byte or more at each turn, `tx_job::process`
-- of the client numbers a packet or more (its inner loop runs on fuel of its own, for the calls at which
-- the NIC takes nothing), the latency test uses up one number; the loop of
-- `ether_address` needs as much fuel as there is time left.
--
-- Not modelled. The patterns of flow rules, the messages of error codes, the report of a client's run.
-- Calls of the DPDK, Boost and logging libraries; log messages, histograms and floating-point averages
-- are left out.
pub mod Common
pub mod Sockperf
pub mod Dpdkx
pub mod SockperfCli
pub mod Examples
