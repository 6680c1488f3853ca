-- ===== src/SockperfCli/Run/Plan.antt =====
-- sockperf_cli/sockperf.cpp: what `run` settles on before it starts anything.
use mathlib.Core.Option
use dpdk_tools.Common.{
  ℕ, ◌+◌, ◌-◌, ◌*◌, ◌/◌, ◌%◌, ◌^◌, ltb, ◌==◌, ◌&&◌, if◌then◌else◌, List, [], ◌∷◌, not, Option, none,
  some, Bool,
}
use dpdk_tools.Sockperf.Message.{header_size}
use dpdk_tools.Dpdkx.Device.Make.{DeviceConfig}
use dpdk_tools.Dpdkx.Config.Sockets.{Span, adjust_to_socket}

-- `default_latency_n_packets` and `default_throughput_n_packets`
abbrev pub default_latency : ℕ
default_latency = 16

abbrev pub default_throughput : ℕ
default_throughput = 10000

-- The options that `run` reads, of the kinds that the command line gives them. A MAC address is the
-- text of the option.
pub record RunOptions : Type 0 where
  pub txq : ℕ
  pub throughput : ℕ
  pub latency : ℕ
  pub payload_size : ℕ
  pub tx_mempool_size : Option ℕ
  pub no_warmup : Bool
  pub wait_for : ℕ
  pub destination_mac : Option (List ℕ)

-- The socket of the device, or the first one.
unfoldable pub socket_or : Span → ℕ → List Span → Span
socket_or first socket_id [] = first
socket_or first socket_id (s ∷ ss) =
    if s.socket_id == socket_id then s else socket_or first socket_id ss

unfoldable pub choose_socket : ℕ → List Span → Option Span
unfolding socket_or
choose_socket socket_id [] = none
choose_socket socket_id (s ∷ ss) = some (socket_or s socket_id (s ∷ ss))

-- One rx queue at most, and as many tx queues as the option asks for and the cores can serve; none
-- where there is no core left for a tx queue. `svc_queues` is 0.
unfoldable pub fit_queues : ℕ → ℕ → ℕ → Option (ℕ × ℕ)
fit_queues cores_n rx_queues txq =
    let rx = if ltb 1 rx_queues then 1 else rx_queues in
    let tx = if txq == 0 then 1 else txq in
    let n = cores_n - rx + 0 in
    if ltb cores_n (rx + 1 + 0) then none else some (rx, if ltb n tx then n else tx)

abbrev pub with_queues : DeviceConfig → ℕ → ℕ → DeviceConfig
with_queues c rx tx = record c {
  rx = record c.rx { nb_queues = rx };
  tx = record c.tx { nb_queues = tx };
}

-- The configuration that goes to the constructor of the device.
unfoldable pub settle_config : DeviceConfig → ℕ → Span → ℕ → Option DeviceConfig
unfolding fit_queues adjust_to_socket
settle_config c socket_id socket txq =
    let adjusted =
      adjust_to_socket
        (record { rx_queues = c.rx.nb_queues; tx_queues = c.tx.nb_queues; socket_id = socket_id })
        socket in
    Option.map (λ (rx, tx). with_queues c rx tx) (fit_queues socket.cores_n adjusted.rx_queues txq)

-- How many packets each test sends, and the size of their payload.
pub record Tests : Type 0 where
  pub throughput : ℕ
  pub latency : ℕ
  pub payload_size : ℕ

unfoldable pub plan_tests : RunOptions → ℕ → Tests
plan_tests o tx_burst_size =
    let none_asked = o.throughput == 0 && o.latency == 0 in
    let throughput = if none_asked then default_throughput else o.throughput in
    record {
      throughput =
          if not (throughput == 0) && ltb throughput tx_burst_size
          then tx_burst_size
          else throughput;
      latency = if none_asked then default_latency else o.latency;
      payload_size = if ltb o.payload_size header_size then header_size else o.payload_size;
    }

abbrev pub get_or : ℕ → Option ℕ → ℕ
get_or d none = d
get_or d (some n) = n

-- The elements of the memory pool for one queue, an `unsigned`.
abbrev pub mempool_size : RunOptions → ℕ
mempool_size o = get_or 255 o.tx_mempool_size

abbrev pub at_most : ℕ → ℕ → ℕ
at_most bound n = if ltb bound n then bound else n

-- The cache of the pool; `cache_max` is RTE_MEMPOOL_CACHE_MAX_SIZE.
unfoldable pub mempool_cache_size : ℕ → RunOptions → ℕ → ℕ
mempool_cache_size cache_max o tx_burst_size =
    at_most (cache_max / 4) (at_most ((mempool_size o + 1) % 2 ^ 32 / 2) (tx_burst_size * 16))

-- The elements of the whole pool, for so many tx jobs, as the call takes them.
unfoldable pub pool_size : RunOptions → ℕ → ℕ
pool_size o tx_jobs = mempool_size o * tx_jobs % 2 ^ 32
