-- ===== src/SockperfCli/Latency.antt =====
-- sockperf_cli/utils.cpp: `latency_test_job::process`, which sends one marked packet at a time and
-- waits for it to come back. The report that is printed, with its floating-point averages, is I/O.
pub mod Laws
use dpdk_tools.Common.{
  ℕ, zero, suc, ◌+◌, ◌-◌, ◌*◌, ◌%◌, ◌^◌, ltb, ◌==◌, ◌&&◌, if◌then◌else◌, Bool, true, false, not,
  List, [], ◌∷◌, length, Option, none, some, bit_or,
}
use dpdk_tools.Common.Memory.{Memory}
use dpdk_tools.Dpdkx.Mbuf.{Mbuf}
use dpdk_tools.Dpdkx.Clock.{retry, timestamp_fix, mul_div, ns_per_s}
use dpdk_tools.Sockperf.MessageType
use dpdk_tools.Sockperf.Seqn.{warmup}
use dpdk_tools.SockperfCli.Packet.{prepare_packet}
use dpdk_tools.SockperfCli.Channel.{MessageInfo}
use dpdk_tools.SockperfCli.Stats.{minus64}

-- The members that `process` reads, and of the device what it asks.
pub record LatencyTest : Type 0 where
  pub packets2send : ℕ
  pub ol_flags : ℕ
  pub payload_size : ℕ
  pub disable_clock : Bool
  pub clock_enabled : Bool
  pub clock_hz : ℕ
  pub rx_timestamp_offload : Bool
  pub send_on_timestamp_offload : Bool
  -- The flag that the registration of the time stamp gives, if it succeeds.
  pub registered : Option ℕ

unfoldable pub use_dev_clock : LatencyTest → Bool
use_dev_clock j = not j.disable_clock && j.clock_enabled && j.rx_timestamp_offload

abbrev flag_or_zero : Option ℕ → ℕ
flag_or_zero none = 0
flag_or_zero (some flag) = flag

-- `tx_timestamp_dynfields.flag`: 0 where the NIC does not send at a given time.
unfoldable pub tx_timestamp_flag : LatencyTest → ℕ
unfolding use_dev_clock
tx_timestamp_flag j =
    if use_dev_clock j && j.send_on_timestamp_offload then flag_or_zero j.registered else 0

-- When a packet counts as sent, and the time that the NIC is given, by its own clock.
unfoldable pub sending_at : LatencyTest → ℕ → ℕ × Option ℕ
unfolding tx_timestamp_flag mul_div
sending_at j now =
    if tx_timestamp_flag j == 0
    then (now, none)
    else (now + 10000, some (mul_div (now + 10000) j.clock_hz ns_per_s))

-- What the wait for an answer ends with; the latency is in nanoseconds.
pub data Reply : Type 0 where
  rtt : ℕ → Reply
  no_reply suspended_meanwhile : Reply

-- `W` is the state of the world: `suspended` reads `jobs_suspended`, `last` is the channel's last
-- warm-up message, `delay` waits for some milliseconds.
module _ {W : Type 0} (suspended : W → Bool) (last : W → Option MessageInfo)
    (delay : ℕ → W → W) where
  abbrev pub received_at : LatencyTest → MessageInfo → ℕ
  received_at j msg =
      if use_dev_clock j then timestamp_fix j.clock_hz msg.received_ts else msg.enqueued_ts

  abbrev pub answers : ℕ → Option MessageInfo → Bool
  answers seqn none = false
  answers seqn (some msg) = msg.seqn == warmup seqn

  abbrev pub measure : LatencyTest → ℕ → Option MessageInfo → Reply
  measure j sent_at none = no_reply
  measure j sent_at (some msg) = rtt (minus64 (received_at j msg) sent_at)

  -- The `for` loop, by the retries that are left.
  unfoldable pub await_reply : LatencyTest → ℕ → ℕ → ℕ → ℕ → W → Reply × W
  unfolding minus64 timestamp_fix warmup use_dev_clock
  await_reply j effective_timeout seqn sent_at zero w =
      if suspended w
      then (suspended_meanwhile, w)
      else if answers seqn (last w)
      then (measure j sent_at (last w), w)
      else (no_reply, w)
  await_reply j effective_timeout seqn sent_at (suc i) w =
      let rest = await_reply j effective_timeout seqn sent_at i (delay effective_timeout w) in
      if suspended w
      then (suspended_meanwhile, w)
      else if answers seqn (last w)
      then (measure j sent_at (last w), w)
      else rest

  -- `alloc` gives a buffer of the pool, `send` says whether the NIC takes a packet, `clock` is what
  -- `read_clock` or `ns_timer` gives.
  module _ (phdr_cksum : ℕ → Memory → ℕ → ℕ) (udptcp_cksum : ℕ → Memory → ℕ)
      (alloc : W → Option Mbuf × W) (send : Mbuf → Option ℕ → W → Bool × W) (clock : W → ℕ) where
    -- A turn of the `while` loop: whether the number was used up, with the reply.
    unfoldable pub probe : LatencyTest → ℕ → W → Option Reply × W
    unfolding await_reply prepare_packet warmup retry tx_timestamp_flag sending_at
    probe j seqn w = elim ((alloc w).0) [
      | none ↦ (none, (alloc w).1)
      | some buffer ↦
          let packet =
            prepare_packet phdr_cksum udptcp_cksum (warmup seqn) MessageType.ping
              (bit_or j.ol_flags (tx_timestamp_flag j)) j.payload_size buffer in
          let (sent_at, at) = sending_at j (clock (alloc w).1) in
          let (sent, w') = send packet at (alloc w).1 in
          let (r, w'') = await_reply j (retry 500).0 seqn sent_at (retry 500).1 w' in
          if sent then (some r, w'') else (none, w')
    ]

    abbrev pub probed : Option Reply → List Reply → List Reply
    probed none rs = rs
    probed (some r) rs = r ∷ rs

    abbrev pub next_seqn : ℕ → Option Reply → ℕ
    next_seqn seqn none = seqn
    next_seqn seqn (some r) = seqn + 1

    -- The `while` loop on fuel: what the wait for each number ended with, the last one first.
    unfoldable pub probe_all : ℕ → LatencyTest → ℕ → List Reply → W → Option (List Reply × W)
    unfolding probe
    probe_all zero j seqn rs w = none
    probe_all (suc fuel) j seqn rs w =
        let (r, w') = probe j seqn w in
        let rest = probe_all fuel j (next_seqn seqn r) (probed r rs) w' in
        if ltb seqn ((j.packets2send + 1) % 2 ^ 64) && not (suspended w) then rest else some (rs, w)

    unfoldable pub latency_test : ℕ → LatencyTest → W → Option (List Reply × W)
    unfolding probe_all
    latency_test fuel j w = probe_all fuel j 1 [] w
