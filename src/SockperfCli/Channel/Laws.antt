-- ===== src/SockperfCli/Channel/Laws.antt =====
-- What the channel makes of the packets that the client has prepared, once they come back.
use dpdk_tools.Common.{
  ℕ, ◌+◌, ◌%◌, ◌^◌, ◌≤◌, ◌<◌, ◌≡◌, refl, ap, ◌∙◌, leb, ◌==◌, true, false, arith, List, [], ◌∷◌, map,
  length, Option,
}
use dpdk_tools.Common.Memory.{Memory}
use dpdk_tools.Dpdkx.Mbuf.{Mbuf}
use dpdk_tools.Sockperf.MessageType
use dpdk_tools.Sockperf.Message.{seqn, message_type}
use dpdk_tools.Sockperf.Seqn.{is_warmup}
use dpdk_tools.SockperfCli.Packet.{from, prepare_packet, prepare_packet_headers}
use dpdk_tools.SockperfCli.Packet.Laws.{prepare_packet-seqn}
use dpdk_tools.SockperfCli.Stats.{PacketInfo, record_packet}
use dpdk_tools.SockperfCli.Stats.Slots.{record_all}
use dpdk_tools.SockperfCli.Channel.{SockperfChannel, received, message, take_packet, enqueue}

-- A number that fits its field and has no warm-up mark.
abbrev pub Measured : ℕ → Type 0
Measured n = (n < 256 ^ 8) × (is_warmup n ≡ false)

abbrev pub AllMeasured : List (ℕ × Mbuf) → Type 0
AllMeasured [] = Unit
AllMeasured (x ∷ xs) = Measured x.0 × AllMeasured xs

module _ (phdr_cksum : ℕ → Memory → ℕ → ℕ) (udptcp_cksum : ℕ → Memory → ℕ) (flags size : ℕ)
    (clock_hz : ℕ) (buffer_timestamp : Mbuf → Option ℕ) (enqueued : ℕ) where
  abbrev pub prepared : ℕ × Mbuf → Mbuf
  prepared x = prepare_packet phdr_cksum udptcp_cksum x.0 MessageType.ping flags size x.1

  abbrev pub info : ℕ × Mbuf → PacketInfo
  info x = record {
    seqn = x.0;
    received = received clock_hz buffer_timestamp enqueued (buffer_timestamp (prepared x));
    enqueued_rx = enqueued;
    packet_size = 42 + size;
  }

  take_packet-prepared :
      (x : ℕ × Mbuf) (ch : SockperfChannel)
      → 14 ≤ size
      → 42 + size < 65536
      → Measured x.0
      → ch.stats.next_slot < ch.packets2send
      → take_packet clock_hz buffer_timestamp enqueued (prepared x) ch
        ≡ record ch { stats = record_packet (info x) ch.stats }
  unfolding take_packet message prepare_packet prepare_packet_headers
  take_packet-prepared (n, b) ch low high (fits, plain) room =
      rw (long, ping, number, plain, free)
        (ap (λ k. record ch { stats = record_packet (sized k) ch.stats }) whole)
    where
      sized : ℕ → PacketInfo
      sized k = record (info (n, b)) { packet_size = k }

      whole : (42 + size) % 4294967296 % 65536 ≡ 42 + size
      whole = omega arith

      long : leb (42 + 14) ((42 + size) % 4294967296 % 65536) ≡ true
      long = ground arith

      ping : message_type (from 42 (prepared (n, b)).bytes) ≡ MessageType.ping
      ping = (prepare_packet-seqn phdr_cksum udptcp_cksum n 3 flags size b fits (omega arith)).1

      number : seqn (from 42 (prepared (n, b)).bytes) ≡ n
      number = (prepare_packet-seqn phdr_cksum udptcp_cksum n 3 flags size b fits (omega arith)).0

      free : ch.stats.next_slot == ch.packets2send ≡ false
      free = ground arith

  -- Prepared pings of at least 14 bytes of payload that come back in a burst, their numbers without
  -- the warm-up mark, are recorded all, each with its number and in the order of the burst, as long as
  -- the channel expects that many; nothing else of the channel changes.
  pub enqueue-prepared :
      (xs : List (ℕ × Mbuf)) (ch : SockperfChannel)
      → 14 ≤ size
      → 42 + size < 65536
      → AllMeasured xs
      → ch.stats.next_slot + length xs ≤ ch.packets2send
      → enqueue clock_hz buffer_timestamp enqueued (map prepared xs) ch
        ≡ record ch { stats = record_all (map info xs) ch.stats }
  unfolding enqueue record_all record_packet
  enqueue-prepared [] ch low high all room = refl
  enqueue-prepared (x ∷ xs) ch low high (one, all) room =
      ap (enqueue clock_hz buffer_timestamp enqueued (map prepared xs))
        (take_packet-prepared x ch low high one (omega arith))
      ∙ enqueue-prepared xs (record ch { stats = record_packet (info x) ch.stats }) low high all
          (omega arith)
