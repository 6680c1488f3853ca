-- ===== src/Dpdkx/Device/Make.antt =====
-- The constructor of `dpdkx::device`: the queues and their jobs, from what the driver proposes.
pub mod Layout
pub mod Queues
pub mod Laws
use dpdk_tools.Common.{
  ℕ, zero, suc, ◌+◌, ◌-◌, ◌*◌, ◌%◌, ◌^◌, ltb, ◌==◌, ◌&&◌, if◌then◌else◌, Bool, true, false, not,
  List, [], ◌∷◌, ◌++◌, length, map, Option, none, some, bit_and,
}
use dpdk_tools.Dpdkx.Clock.{ns_per_s}
use dpdk_tools.Dpdkx.Device.TxJob.{max_pkt_burst}

-- `config::device`, as far as the constructor reads it: the driver's proposals for the queues of each
-- direction, and the rest.
pub record Proposal : Type 0 where
  pub nb_queues : ℕ
  pub burst_size : ℕ
  pub ring_size : ℕ

pub record DeviceConfig : Type 0 where
  pub rx : Proposal
  pub tx : Proposal
  pub rx_flow_queues : ℕ
  pub svc_tx_n : ℕ
  pub tx_rings : ℕ
  pub clock_hz : ℕ
  pub dev_clock : Bool
  pub rx_offloads : ℕ
  pub tx_offloads : ℕ

-- What the constructor makes: the configuration it has settled on, the queues by their jobs, and what
-- the port was configured with.
pub record Device : Type 0 where
  pub config : DeviceConfig
  pub clock_bswap : Bool
  pub tx_queues : ℕ
  pub rx_jobs : List ℕ
  pub flow_queues : List ℕ
  pub tx_jobs : List ℕ
  pub port_rx_offloads : ℕ
  pub rss : Bool
  pub timestamp_flag : ℕ

-- The exceptions, by the call that failed.
pub data Made : Type 0 where
  no_svc_mempool not_configured not_adjusted no_mempool : Made
  no_tx_ring no_rx_queue no_tx_queue : ℕ → Made
  made : Device → Made

-- The answers of the libraries: `clock` of `estimate_clock_freq`, the others of the DPDK calls;
-- `tx_ring` is whether `rte_ring_create` gives a ring for the queue.
pub record Driver : Type 0 where
  pub svc_mempool : Bool
  pub tx_ring : ℕ → Bool
  pub clock : ℕ × Bool
  pub timestamp_register : Option ℕ
  pub configure : ℕ → ℕ → ℕ → Bool → Bool
  pub adjust : ℕ → ℕ → Option (ℕ × ℕ)
  pub mempool : ℕ → Bool
  pub rx_queue_setup : ℕ → ℕ → ℕ → Bool
  pub tx_queue_setup : ℕ → ℕ → ℕ → Bool

-- RTE_ETH_RX_OFFLOAD_RSS_HASH
abbrev pub rss_hash : ℕ
rss_hash = 2 ^ 19

abbrev has : ℕ → ℕ → Bool
has offloads bit = bit_and offloads bit == bit

abbrev pub without : ℕ → ℕ → ℕ
without offloads bit = offloads - bit_and offloads bit

-- `std::views::iota`, from `i` on, by the number of elements.
abbrev pub iota : ℕ → ℕ → List ℕ
iota zero i = []
iota (suc n) i = i ∷ iota n (suc i)

abbrev pub default_to : ℕ → ℕ → ℕ
default_to d n = if n == 0 then d else n

-- Whether the device's clock is used, its frequency, and whether it is byte-swapped: no clock is used
-- if the estimate is 0.
unfoldable pub settle_clock : Driver → DeviceConfig → Bool × ℕ × Bool
settle_clock d c =
    if c.dev_clock
    then (if d.clock.0 == 0
        then (false, ns_per_s, d.clock.1)
        else (true, default_to d.clock.0 c.clock_hz, d.clock.1))
    else (false, c.clock_hz, false)

-- The bursts, and the queues that are set aside for flows.
unfoldable pub settle_queues : DeviceConfig → DeviceConfig
settle_queues c = record c {
  rx = record c.rx { burst_size = default_to 32 c.rx.burst_size };
  tx = record c.tx { burst_size = default_to 32 c.tx.burst_size };
  rx_flow_queues = if ltb c.rx.nb_queues c.rx_flow_queues then c.rx.nb_queues else c.rx_flow_queues;
}

-- The device before the port is configured.
unfoldable pub lay_out : Driver → DeviceConfig → Device
unfolding settle_clock settle_queues
lay_out d c =
    let clock = settle_clock d c in
    let c' = settle_queues c in
    let tx_queues = if ltb c.tx.nb_queues c.tx_rings then 0 else c.tx.nb_queues - c.tx_rings in
    let n_rss_queues = c'.rx.nb_queues - c'.rx_flow_queues in
    record {
      config = record c' { dev_clock = clock.0; clock_hz = clock.1 };
      clock_bswap = clock.2;
      tx_queues = tx_queues;
      rx_jobs = iota n_rss_queues 0;
      flow_queues = iota c'.rx_flow_queues n_rss_queues;
      tx_jobs = iota (c'.tx.nb_queues - tx_queues) tx_queues;
      port_rx_offloads =
          if ltb 1 n_rss_queues then c'.rx_offloads else without c'.rx_offloads rss_hash;
      rss = ltb 1 n_rss_queues && has c'.rx_offloads rss_hash;
      timestamp_flag = elim (d.timestamp_register) [ none ↦ 0 | some flag ↦ flag ];
    }

-- `default_ring_size`
abbrev pub default_ring_size : ℕ
default_ring_size = 1024

-- RX_DESC_MAX + nb_queues * mb_mempool_cache + TX_DESC_MAX + max_pkt_burst
unfoldable pub nb_mbuf_per_pool : ℕ → ℕ
nb_mbuf_per_pool nb_queues = (2048 + nb_queues * 250 + 2048 + max_pkt_burst) % 4294967296

-- A loop over queues that a call sets up: the first one that fails.
unfoldable pub first_failing : (ℕ → Bool) → List ℕ → Option ℕ
first_failing setup [] = none
first_failing setup (q ∷ qs) = let rest = first_failing setup qs in if setup q then rest else some q

abbrev pub finish : Device → Device
finish d = record d {
  config = record d.config {
    svc_tx_n =
        if ltb (length d.tx_jobs) d.config.svc_tx_n then length d.tx_jobs else d.config.svc_tx_n;
  };
}

abbrev pub set_up_tx : Device → Option ℕ → Made
set_up_tx d (some q) = no_tx_queue q
set_up_tx d none = made (finish d)

abbrev pub set_up_rx : Driver → Device → Option ℕ → Made
set_up_rx drv d (some q) = no_rx_queue q
set_up_rx drv d none = set_up_tx d (
    first_failing (λ q. drv.tx_queue_setup q d.config.tx.ring_size d.config.tx_offloads)
      (iota d.config.tx.nb_queues 0))

abbrev pub with_rings : Device → ℕ → ℕ → Device
with_rings d rx_ring tx_ring = record d {
  config = record d.config {
    rx = record d.config.rx { ring_size = rx_ring };
    tx = record d.config.tx { ring_size = tx_ring };
  };
}

abbrev pub adjusted : Driver → Device → Option (ℕ × ℕ) → Made
adjusted drv d none = not_adjusted
adjusted drv d (some (rx_ring, tx_ring)) =
    if drv.mempool (nb_mbuf_per_pool d.config.rx.nb_queues)
    then set_up_rx drv (with_rings d rx_ring tx_ring) (
        first_failing (λ q. drv.rx_queue_setup q rx_ring d.port_rx_offloads)
          (iota d.config.rx.nb_queues 0))
    else no_mempool

abbrev pub with_tx_rings : Driver → Device → Option ℕ → Made
with_tx_rings drv d (some q) = no_tx_ring q
with_tx_rings drv d none =
    if drv.configure d.config.rx.nb_queues d.config.tx.nb_queues d.port_rx_offloads d.rss
    then adjusted drv d (
        drv.adjust (default_to default_ring_size d.config.rx.ring_size)
          (default_to default_ring_size d.config.tx.ring_size))
    else not_configured

-- The rings of the tx jobs, and the calls that configure the port.
unfoldable pub make_device : Driver → DeviceConfig → Made
unfolding lay_out nb_mbuf_per_pool first_failing
make_device drv c =
    let d = lay_out drv c in
    if drv.svc_mempool
    then with_tx_rings drv d (first_failing drv.tx_ring d.tx_jobs)
    else no_svc_mempool

-- `rx_jobs`, `tx_jobs`, and `jobs`, which lists all that can run, by their queues.
pub data JobOf : Type 0 where
  rx_job flow_queue tx_job : ℕ → JobOf

unfoldable pub jobs : Device → List JobOf
jobs d = map rx_job d.rx_jobs ++ (map flow_queue d.flow_queues ++ map tx_job d.tx_jobs)

-- `start`: the flow queues are started if the port is.
unfoldable pub start : ℕ → Device → ℕ × List ℕ
start dev_start d = (dev_start, if dev_start == 0 then d.flow_queues else [])
