-- ===== src/SockperfCli/Channel.antt =====
-- sockperf_cli/utils.cpp: `sockperf_channel`, which takes the packets that come back.
pub mod Laws
use dpdk_tools.Common.{
  ℕ, zero, suc, ◌+◌, ◌-◌, ◌*◌, ◌%◌, ◌^◌, ltb, leb, ◌==◌, ◌||◌, if◌then◌else◌, Bool, true, false,
  not, List, [], ◌∷◌, Option, none, some,
}
use dpdk_tools.Common.Memory.{Memory}
use dpdk_tools.Dpdkx.Mbuf.{Mbuf}
use dpdk_tools.Dpdkx.Clock.{timestamp_fix}
use dpdk_tools.Sockperf.Message.{header_size, seqn, message_type}
use dpdk_tools.Sockperf.MessageType
use dpdk_tools.Sockperf.Seqn.{is_warmup}
use dpdk_tools.SockperfCli.Packet.{from}
use dpdk_tools.SockperfCli.Stats.{PacketInfo, Statistics, make_statistics, record_packet}

pub record MessageInfo : Type 0 where
  pub seqn : ℕ
  pub received_ts : ℕ
  pub enqueued_ts : ℕ

-- The channel, and whether it has stopped the jobs.
pub record SockperfChannel : Type 0 where
  pub packets2send : ℕ
  pub stats : Statistics
  pub last_warmup_message : Option MessageInfo
  pub jobs_stopped : Bool

-- The constructor; `ntx` is the number of tx queues of the device. The number of slots is for each
-- queue, of which one byte is kept.
unfoldable pub make_channel : ℕ → Bool → ℕ → (ℕ → PacketInfo) → SockperfChannel
unfolding make_statistics
make_channel packets2send detailed_stats ntx memory =
    let total = packets2send * ntx % 2 ^ 64 in
    record {
      packets2send = total;
      stats =
          make_statistics (if detailed_stats then (if total == 0 then 2 else total) else 2)
            (ntx % 256) memory;
      last_warmup_message = none;
      jobs_stopped = false;
    }

abbrev value_or : ℕ → Option ℕ → ℕ
value_or d none = d
value_or d (some x) = x

-- The device's clock and, of a buffer, the time stamp that the NIC has put there.
module _ (clock_hz : ℕ) (buffer_timestamp : Mbuf → Option ℕ) (enqueued : ℕ) where
  abbrev pub received : Option ℕ → ℕ
  received none = enqueued
  received (some ts) = timestamp_fix clock_hz ts

  abbrev pub headers : Mbuf → ℕ
  headers b = b.l2_len + b.l3_len + b.l4_len

  -- What a ping or a pong does.
  unfoldable pub message : Mbuf → SockperfChannel → SockperfChannel
  unfolding record_packet is_warmup seqn timestamp_fix
  message b ch =
      let number = seqn (from (headers b) b.bytes) in
      if is_warmup number
      then record ch {
        last_warmup_message = some (record {
          seqn = number;
          received_ts = value_or enqueued (buffer_timestamp b);
          enqueued_ts = enqueued;
        });
      }
      else if ch.stats.next_slot == ch.packets2send
      then record ch { jobs_stopped = true }
      else record ch {
        stats =
            record_packet
              (record {
                seqn = number;
                received = received (buffer_timestamp b);
                enqueued_rx = enqueued;
                packet_size = b.data_len;
              })
              ch.stats;
      }

  abbrev pub is_message : ℕ → Bool
  is_message type = type == MessageType.ping || type == MessageType.pong

  unfoldable pub take_packet : Mbuf → SockperfChannel → SockperfChannel
  unfolding message message_type
  take_packet b ch =
      if leb (headers b + header_size) b.data_len
      then (if is_message (message_type (from (headers b) b.bytes)) then message b ch else ch)
      else ch

  -- The loop; all buffers are freed afterwards, and 0 is returned: none is left to the caller.
  unfoldable pub enqueue : List Mbuf → SockperfChannel → SockperfChannel
  unfolding take_packet
  enqueue [] ch = ch
  enqueue (b ∷ bs) ch = enqueue bs (take_packet b ch)
