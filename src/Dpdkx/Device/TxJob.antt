-- ===== src/Dpdkx/Device/TxJob.antt =====
-- `device::tx_job`: packets from a ring go to the NIC in bursts. A packet is a number, the ring is the
-- list of its packets, and how many of the packets offered the NIC takes is an argument.
pub mod Laws
use dpdk_tools.Common.{
  ℕ, ◌+◌, ◌-◌, ltb, ◌==◌, if◌then◌else◌, Bool, not, ◌||◌, ◌&&◌, List, [], ◌++◌, take, drop, length,
  min,
}
use dpdk_tools.Dpdkx.Jobs.{JobState, busy, idling}

-- `max_pkt_burst`, the size of the array `buffers_`.
abbrev pub max_pkt_burst : ℕ
max_pkt_burst = 256

pub record TxJob : Type 0 where
  pub n : ℕ
  pub burst_size : ℕ
  pub buffers : List ℕ

unfoldable pub make : ℕ → List ℕ → TxJob
make burst_size buffers = record {
  n = 0;
  burst_size = min burst_size max_pkt_burst;
  buffers = buffers;
}

-- `std::copy_backward(begin, begin + sent, begin + n)`
unfoldable pub copy_backward : ℕ → ℕ → List ℕ → List ℕ
copy_backward sent n xs = take (n - sent) xs ++ (take sent xs ++ drop n xs)

pub record Processed : Type 0 where
  pub job : TxJob
  pub ring : List ℕ
  pub transmitted : List ℕ
  pub state : JobState

-- `rte_ring_sc_dequeue_burst_elem` into the free end of the array; not called on a full one.
unfoldable pub refill : TxJob → List ℕ → TxJob × List ℕ
refill s ring =
    if s.burst_size == s.n
    then (s, ring)
    else (let got = take (s.burst_size - s.n) ring in
        let n = s.n + length got in
        (
          record s { n = n; buffers = take s.n s.buffers ++ (got ++ drop n s.buffers) },
          drop (s.burst_size - s.n) ring,
        ))

-- `accept` answers `rte_eth_tx_burst`: how many of the packets that are offered are taken.
unfoldable pub transmit : (ℕ → ℕ) → TxJob → List ℕ → Processed
unfolding copy_backward
transmit accept s ring =
    let sent = accept s.n in
    let moved = copy_backward sent s.n s.buffers in
    record {
      job = record s {
        n = s.n - sent;
        buffers = if not (sent == 0) && not (s.n == sent) then moved else s.buffers;
      };
      ring = ring;
      transmitted = take sent s.buffers;
      state = busy;
    }

unfoldable pub process : (ℕ → ℕ) → TxJob → List ℕ → Processed
unfolding refill transmit
process accept s ring =
    let (s', ring') = refill s ring in
    if s.burst_size == s.n || not (s'.n == 0)
    then transmit accept s' ring'
    else record { job = s'; ring = ring'; transmitted = []; state = idling }
