-- ===== src/Examples/Host.antt =====
-- The theorems on the run of the client, and on the cores of the host, at concrete inputs.
use dpdk_tools.Common.{
  ℕ, ◌*◌, ◌≤◌, ◌≡◌, refl, ltb, if◌then◌else◌, true, false, List, [], ◌∷◌, none, some, arith,
}
use dpdk_tools.Dpdkx.Device.Make.{Proposal, DeviceConfig, Driver}
use dpdk_tools.Dpdkx.Device.Sinks.{ok}
use dpdk_tools.Dpdkx.Config.Sockets.{socket_configuration}
use dpdk_tools.Dpdkx.Config.Sockets.Arranged.{AllArranged}
use dpdk_tools.Dpdkx.Config.Sockets.Configured.{socket_configuration-AllArranged}
use dpdk_tools.SockperfCli.Warmup.{warmed_up}
use dpdk_tools.SockperfCli.Run.Plan.{RunOptions, mempool_cache_size, pool_size}
use dpdk_tools.SockperfCli.Run.{
  receiver, sender, latency_test, launch, run_here, wait, delay, warm_up, stop_jobs, wait_all,
  Machine, finished, run,
}
use dpdk_tools.SockperfCli.Run.Pool.{mempool_cache_size_bounds}

abbrev proposal : Proposal
proposal = record { nb_queues = 4; burst_size = 32; ring_size = 0 }

abbrev device_config : DeviceConfig
device_config = record {
  rx = proposal;
  tx = proposal;
  rx_flow_queues = 0;
  svc_tx_n = 65535;
  tx_rings = 65535;
  clock_hz = 0;
  dev_clock = false;
  rx_offloads = 0;
  tx_offloads = 0;
}

abbrev driver : Driver
driver = record {
  svc_mempool = true;
  tx_ring = λ q. true;
  clock = (0, false);
  timestamp_register = none;
  configure = λ rx tx offloads rss. true;
  adjust = λ rx tx. some (rx, tx);
  mempool = λ n. true;
  rx_queue_setup = λ q ring offloads. true;
  tx_queue_setup = λ q ring offloads. true;
}

-- Cores 0 and 1 on the first socket, of which 0 is the main core, and 2 and 3 on the second.
abbrev socket_of : ℕ → ℕ
socket_of c = if ltb c 2 then 0 else 1

abbrev lcores : List ℕ
lcores = 0 ∷ 2 ∷ 1 ∷ 3 ∷ []

abbrev machine : Machine
machine = record {
  destination_ok = true;
  devices = record { socket_id = 0; config = device_config } ∷ [];
  sockets = (socket_configuration socket_of lcores 0).0;
  cores = (socket_configuration socket_of lcores 0).1;
  main_core = 0;
  driver = driver;
  svc_mempool = true;
  started = 0;
  link_status = 0;
  attached = ok;
  unformat_addr = λ text. true;
  ether_address = ok;
  cache_max = 512;
  headroom = 128;
  mempool = λ n cache room. true;
  warmup = warmed_up;
  receiver_waits = λ n. ltb 0 n;
}

abbrev options : RunOptions
options = record {
  txq = 1;
  throughput = 0;
  latency = 0;
  payload_size = 14;
  tx_mempool_size = none;
  no_warmup = false;
  wait_for = 5000;
  destination_mac = none;
}

socket_configuration-AllArranged_example :
    AllArranged 0
      (socket_configuration socket_of lcores 0).1
      (socket_configuration socket_of lcores 0).0
socket_configuration-AllArranged_example =
    socket_configuration-AllArranged socket_of lcores 0 (omega arith)

-- The whole run: the receiver on core 1, both tests on the main core.
run_test :
    run machine options
    ≡ some (
      finished,
      launch 1 (receiver 0)
          ∷ warm_up
          ∷ run_here latency_test
          ∷ run_here (sender 0)
          ∷ delay
          ∷ stop_jobs
          ∷ wait 1
          ∷ stop_jobs
          ∷ wait_all
          ∷ [],
    )
unfolding run socket_configuration
run_test = refl

mempool_cache_size_bounds_example :
    (mempool_cache_size 512 options 32 ≤ 512)
    × (3 * mempool_cache_size 512 options 32 ≤ 2 * pool_size options 4)
mempool_cache_size_bounds_example =
    mempool_cache_size_bounds 512 options 32 4 (omega arith) (omega arith) (omega arith)
