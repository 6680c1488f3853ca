-- ===== src/SockperfCli/TxJob.antt =====
-- sockperf_cli/utils.cpp: `tx_job` of the client, which sends numbered packets in bursts.
pub mod Leftover
pub mod Laws
use mathlib.Core.Option
use dpdk_tools.Common.{
  ℕ, zero, suc, ◌+◌, ◌-◌, ◌*◌, ◌%◌, ◌^◌, ltb, leb, ◌==◌, ◌&&◌, ◌>>=◌, if◌then◌else◌, Bool, true,
  false, List, [], ◌∷◌, ◌++◌, Option, none, some,
}
use dpdk_tools.Common.Memory.{Memory}
use dpdk_tools.Dpdkx.Mbuf.{Mbuf}
use dpdk_tools.Sockperf.MessageType
use dpdk_tools.Sockperf.Seqn.{make_seqn}
use dpdk_tools.SockperfCli.Packet.{prepare_packet}
use dpdk_tools.SockperfCli.Stats.{tx_slot, minus64}

unfoldable pub extra_packets : ℕ → ℕ
extra_packets burst_size = burst_size * 5

-- The members that `process` only reads.
pub record TxJob : Type 0 where
  pub queue_id : ℕ
  pub burst_size : ℕ
  pub timestamps_capacity : ℕ
  pub packets2send : ℕ
  pub ol_flags : ℕ
  pub payload_size : ℕ

-- The constructor; `configured` is the burst size of the device.
unfoldable pub make : ℕ → ℕ → ℕ → ℕ → ℕ → TxJob
unfolding extra_packets
make configured queue_id packets2send ol_flags payload_size =
    let burst_size = if configured == 0 then 32 else configured in
    record {
      queue_id = queue_id;
      burst_size = burst_size;
      timestamps_capacity = (packets2send + burst_size + extra_packets burst_size) % 2 ^ 64;
      packets2send = (packets2send + extra_packets burst_size) % 2 ^ 64;
      ol_flags = ol_flags;
      payload_size = payload_size;
    }

-- The vector of buffers, by its index.
abbrev pub Buffers : Type 0
Buffers = ℕ → Mbuf

-- After a burst of which `offset` packets were not sent: `buffers_[sent - ix - 1] =
-- buffers_[burst_size_ - ix - 1]`, the argument is the number of turns that are left.
unfoldable pub move_up : ℕ → ℕ → Buffers → Buffers
move_up offset zero b = b
move_up offset (suc j) b = move_up offset j (λ i. if i == j then b (j + offset) else b i)

-- The variables of the loop, with what has been transmitted, and how often the NIC and the pool were
-- called.
pub record Sending : Type 0 where
  pub seqn : ℕ
  pub offset : ℕ
  pub buffers : Buffers
  pub timestamps : List (ℕ × ℕ)
  pub transmitted : List Mbuf
  pub bursts : ℕ
  pub allocs : ℕ

-- Some entries of the vector, from an index on.
abbrev pub window : ℕ → ℕ → Buffers → List Mbuf
window zero i b = []
window (suc n) i b = b i ∷ window n (suc i) b

abbrev pub start : Buffers → Sending
start buffers = record {
  seqn = 1;
  offset = 0;
  buffers = buffers;
  timestamps = [];
  transmitted = [];
  bursts = 0;
  allocs = 0;
}

-- `alloc` is what `rte_pktmbuf_alloc_bulk` gives the n-th time, by the index that it is written to;
-- `sent` is what `rte_eth_tx_burst` returns the n-th time, `time` is `ns_timer` before that call, and
-- `unset` is what a slot holds that was not written to.
module _ (phdr_cksum : ℕ → Memory → ℕ → ℕ) (udptcp_cksum : ℕ → Memory → ℕ)
    (alloc : ℕ → Option Buffers) (sent time : ℕ → ℕ) (unset : ℕ) where
  -- The loop over the buffers that were allocated: the packet at index `i` gets the next number.
  unfoldable pub prepare_all : TxJob → Sending → Buffers → Buffers
  unfolding prepare_packet make_seqn
  prepare_all j s fresh i =
      if leb s.offset i && ltb i j.burst_size
      then prepare_packet phdr_cksum udptcp_cksum
          (make_seqn j.queue_id ((s.seqn + (i - s.offset) + 1) % 2 ^ 64)) MessageType.ping
          j.ol_flags j.payload_size (fresh i)
      else s.buffers i

  -- The inner loop on fuel, until some packets are sent: the number of that call.
  unfoldable pub send_burst : ℕ → ℕ → Option ℕ
  send_burst zero k = none
  send_burst (suc fuel) k =
      let rest = send_burst fuel (k + 1) in if sent k == 0 then rest else some k

  -- The number of the last packet of the burst.
  abbrev pub last_of : TxJob → Sending → ℕ
  last_of j s = (s.seqn + (j.burst_size - s.offset)) % 2 ^ 64

  -- The slot for the burst that call `k` sends some of; a burst that was sent in part opens another
  -- one for the same number.
  unfoldable pub open_slots : TxJob → Sending → ℕ → Option (List (ℕ × ℕ))
  unfolding tx_slot minus64
  open_slots j s k =
      let seqn = minus64 (last_of j s) j.burst_size in
      tx_slot j.timestamps_capacity seqn (time k) s.timestamps >>= λ slots.
      if j.burst_size - sent k == 0
      then some slots
      else tx_slot j.timestamps_capacity seqn unset slots

  -- The rest of a turn, after the call that sent some.
  abbrev pub after_burst : TxJob → Sending → Buffers → ℕ → List (ℕ × ℕ) → Sending
  after_burst j s buffers k slots =
      let offset = j.burst_size - sent k in
      record {
        seqn = last_of j s;
        offset = offset;
        buffers = if offset == 0 then buffers else move_up offset (sent k) buffers;
        timestamps = slots;
        transmitted = s.transmitted ++ window (sent k) 0 buffers;
        bursts = k + 1;
        allocs = s.allocs + 1;
      }

  abbrev pub burst_done : TxJob → Sending → Buffers → Option ℕ → Option Sending
  burst_done j s buffers none = none
  burst_done j s buffers (some k) = Option.map (after_burst j s buffers k) (open_slots j s k)

  -- One turn of the `while` loop.
  unfoldable pub turn : ℕ → TxJob → Sending → Option Sending
  unfolding prepare_all send_burst move_up open_slots
  turn fuel j s = elim (alloc s.allocs) [
    | none ↦ some (record s { allocs = s.allocs + 1 })
    | some fresh ↦ burst_done j s (prepare_all j s fresh) (send_burst fuel s.bursts)
  ]

  unfoldable pub send_all : ℕ → ℕ → TxJob → Sending → Option Sending
  unfolding turn
  send_all wait zero j s = none
  send_all wait (suc fuel) j s =
      if ltb s.seqn ((j.packets2send + 1) % 2 ^ 64)
      then elim (turn wait j s) [ none ↦ none | some s' ↦ send_all wait fuel j s' ]
      else some s

  -- `tx_job::process`, up to the report; `wait` bounds the inner loop and `fuel` the outer one.
  unfoldable pub process : ℕ → ℕ → TxJob → Buffers → Option Sending
  unfolding send_all
  process wait fuel j buffers = send_all wait fuel j (start buffers)
