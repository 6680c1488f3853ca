-- ===== src/Dpdkx/Device/RxJob.antt =====
-- `device::rx_job`: one burst of received packets, each freed, handed to the channel of its port, or
-- left to the device. Every access of the vector of sinks and every write behind the received packets
-- in `buffers_` is checked: `none` stands for undefined behaviour, an index past the end.
pub mod Find
pub mod Frames
pub mod Shares
pub mod Bursts
pub mod Built
pub mod Rounds
use mathlib.Core.Option
use dpdk_tools.Common.{
  ℕ, zero, suc, ◌+◌, ◌*◌, ◌%◌, ltb, leb, ◌==◌, if◌then◌else◌, ◌>>=◌, Bool, true, false, not, ◌||◌,
  ◌&&◌, List, [], ◌∷◌, ◌++◌, Option, none, some, get_elem?, length,
}
use dpdk_tools.Common.Memory.{load}
use dpdk_tools.Common.ByteOrder.{bswap}
use dpdk_tools.Dpdkx.Proto.{be16, ether_type_ipv4, proto_udp, udp_hdr}
use dpdk_tools.Dpdkx.Mbuf.{Mbuf}
use dpdk_tools.Dpdkx.Mbuf.L2.{eth_proto, update_l2size}
use dpdk_tools.Dpdkx.Device.TxJob.{max_pkt_burst}
use dpdk_tools.Dpdkx.Jobs.{JobState, idling, is_empty}
use dpdk_tools.Dpdkx.Device.Sinks.{Endpoint, SinkEntry, Sinks}

-- `shared_ptr`s are compared by address: a number stands for the vector that one points at.
pub record Shared : Type 0 where
  pub sinks : Sinks
  pub address : ℕ

pub record RxJob : Type 0 where
  pub last : ℕ
  pub checkpoint : ℕ
  pub reload_checkpoint : ℕ
  pub burst_size : ℕ
  pub shared : Shared

-- `try_reload_sinks`, where `device_.sinks()` does not change during the call.
unfoldable pub try_reload_sinks : Shared → RxJob → Bool × RxJob
try_reload_sinks device j =
    if leb j.reload_checkpoint j.checkpoint
    then (
      not (j.shared.address == device.address),
      record j {
        shared = if j.shared.address == device.address then j.shared else device;
        checkpoint = 0;
      },
    )
    else (false, j)

-- The index of the first sink with the port.
unfoldable pub find_sink_at : ℕ → Sinks → ℕ → Option ℕ
find_sink_at i [] port = none
find_sink_at i (e ∷ es) port =
    if e.endpoint.port == port then some i else find_sink_at (suc i) es port

abbrev pub or_first : Option ℕ → ℕ
or_first none = 0
or_first (some i) = i

unfoldable pub answer : RxJob → Option (Option ℕ × RxJob)
answer j = Option.map (λ (e : SinkEntry). (e.channel, j)) (get_elem? j.shared.sinks j.last)

-- `last_` is a `std::uint16_t`.
unfoldable pub relocate : ℕ → RxJob → Option (Option ℕ × RxJob)
unfolding answer find_sink_at
relocate port j = answer (record j { last = or_first (find_sink_at 0 j.shared.sinks port) % 65536 })

-- The cached index serves if its port fits, and its channel is there or no newer sinks are.
unfoldable pub consult : Shared → ℕ → RxJob → SinkEntry → Option (Option ℕ × RxJob)
unfolding relocate answer try_reload_sinks
consult device port j e =
    if not (e.endpoint.port == port) then relocate port j else elim e.channel [
      | some ch ↦ answer j
      | none ↦
          let (newer, j') = try_reload_sinks device j in
          if newer then relocate port j' else answer j'
    ]

-- The lambda `find_rx_channel`.
unfoldable pub find_rx_channel : Shared → ℕ → RxJob → Option (Option ℕ × RxJob)
unfolding consult
find_rx_channel device port j = elim (get_elem? j.shared.sinks j.last) [
  | none ↦ none
  | some e ↦ consult device port j e
]

-- The headers of a packet, at the offsets of DPDK's `rte_ipv4_hdr` and `rte_udp_hdr`.
unfoldable pub l3size : Mbuf → ℕ
l3size b = load 1 b.l2_len b.bytes % 16 * 4

unfoldable pub next_proto_id : Mbuf → ℕ
next_proto_id b = load 1 (b.l2_len + 9) b.bytes

unfoldable pub udp_dst_port : Mbuf → ℕ
unfolding l3size
udp_dst_port b = load 2 (b.l2_len + l3size b + 2) b.bytes

unfoldable pub dgram_len : Mbuf → ℕ
unfolding l3size
dgram_len b = bswap 2 (load 2 (b.l2_len + l3size b + 4) b.bytes)

-- What the `switch` makes of a packet before it looks for a channel.
pub data Kind : Type 0 where
  broken udp other : Kind

unfoldable pub kind : Mbuf → Kind
unfolding eth_proto next_proto_id l3size dgram_len
kind b =
    if eth_proto b == 0
    then broken
    else if eth_proto b == be16 ether_type_ipv4 && next_proto_id b == proto_udp
    then (if ltb b.data_len (b.l2_len + l3size b + udp_hdr)
          || ltb b.data_len (b.l2_len + l3size b + dgram_len b)
        then broken
        else udp)
    else other

-- A run of packets handed to one channel, and whether the count of packets that the channel gives
-- back is used to free them.
pub record Handed : Type 0 where
  pub channel : ℕ
  pub packets : List Mbuf
  pub recycled : Bool

pub record Burst : Type 0 where
  pub freed : List Mbuf
  pub handed : List Handed
  pub left : List Mbuf

abbrev pub Run : Type 0
Run = Option (ℕ × List Mbuf)

abbrev pub flush : Bool → Run → Burst → Burst
flush recycled none b = b
flush recycled (some (ch, ps)) b = record b {
  handed = record { channel = ch; packets = ps; recycled = recycled } ∷ b.handed;
}

abbrev pub headers_set : Mbuf → Mbuf
headers_set p = record p { l3_len = l3size p; l4_len = udp_hdr }

-- Where a packet for channel `ch` goes: on the run of that channel, or on a new one.
abbrev pub extends : Run → ℕ → Bool
extends none ch = false
extends (some (cur, ps)) ch = cur == ch

abbrev pub extend : Run → ℕ → Mbuf → Run
extend none ch p = some (ch, p ∷ [])
extend (some (cur, ps)) ch p = if cur == ch then some (cur, ps ++ p ∷ []) else some (ch, p ∷ [])

-- The size of `buffers_`.
abbrev pub buffers_size : ℕ
buffers_size = max_pkt_burst * 2

-- A packet that is left to the device: it is written behind those before it.
abbrev pub leave : ℕ → Mbuf → Run → Option (Burst × RxJob) → Option (Burst × RxJob)
leave post_process p run rest =
    if ltb post_process buffers_size
    then Option.map (λ (b, j). (flush false run (record b { left = p ∷ b.left }), j)) rest
    else none

-- The second `for` loop: `run` holds the `ready` packets before the current one, with their channel,
-- and `post_process` is the index in `buffers_` that the next packet left to the device is written to.
unfoldable pub dispatch : Shared → Run → ℕ → List Mbuf → RxJob → Option (Burst × RxJob)
unfolding find_rx_channel kind
dispatch device run post_process [] j =
    some (flush false run (record { freed = []; handed = []; left = [] }), j)
dispatch device run post_process (p ∷ ps) j = elim (kind p) [
  | broken ↦
      Option.map (λ (b, j'). (flush false run (record b { freed = p ∷ b.freed }), j'))
        (dispatch device none post_process ps j)
  | other ↦ leave post_process p run (dispatch device none (post_process + 1) ps j)
  | udp ↦ elim (find_rx_channel device (udp_dst_port p) j) [
    | none ↦ none
    | some (none, j') ↦ leave post_process p run (dispatch device none (post_process + 1) ps j')
    | some (some ch, j') ↦
        Option.map (λ (b, j''). (if extends run ch then b else flush true run b, j''))
          (dispatch device (extend run ch (headers_set p)) post_process ps j')
  ]
]

-- `update_l2size` on each packet; its answer is dropped.
unfoldable pub update_all : ℕ → ℕ → List Mbuf → Option (List Mbuf)
update_all l2_mod fuel [] = some []
update_all l2_mod fuel (p ∷ ps) = do
  (proto, p') ← update_l2size l2_mod fuel p
  ps' ← update_all l2_mod fuel ps
  some (p' ∷ ps')

-- The counter of rounds since the sinks were loaded, a `std::uint16_t`, at the end of a round.
unfoldable pub count_round : Bool → RxJob → RxJob
count_round quiet j =
    let more = if quiet then (j.checkpoint + 2 * j.burst_size) % 65536 else j.checkpoint in
    record j { checkpoint = (more + 1) % 65536 }

-- `process`, on the packets that `rte_eth_rx_burst` gave, at most `burst_size`. What is left goes to
-- `device::process_rx_packets`.
unfoldable pub process : ℕ → ℕ → Shared → List Mbuf → RxJob → Option (Burst × RxJob × JobState)
unfolding try_reload_sinks update_all dispatch count_round
process l2_mod fuel device [] j = some (
  record { freed = []; handed = []; left = [] },
  count_round true (try_reload_sinks device j).1,
  idling,
)
process l2_mod fuel device received j = do
  packets ← update_all l2_mod fuel received
  (b, j') ← dispatch device none (length received) packets (try_reload_sinks device j).1
  let quiet = length b.left == length received && not (length b.left == j'.burst_size)
  some (b, count_round quiet j', idling)
