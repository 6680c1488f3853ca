-- ===== src/Examples/Wire.antt =====
-- The theorems on messages, frames and clocks at concrete inputs.
use dpdk_tools.Common.{◌+◌, ◌*◌, ◌%◌, ◌^◌, ◌≤◌, ◌<◌, ◌≡◌, ◌==◌, if◌then◌else◌, arith}
use dpdk_tools.Common.Memory.{Memory}
use dpdk_tools.Common.ByteOrder.{load_be}
use dpdk_tools.Sockperf.Message.{seqn, message_type, message_size}
use dpdk_tools.Sockperf.Message.Laws.{write_header, header_roundtrip, header_wire}
use dpdk_tools.Sockperf.Seqn.{make_seqn, split_seqn}
use dpdk_tools.Sockperf.Seqn.Laws.{split_seqn-make_seqn}
use dpdk_tools.Dpdkx.Mbuf.{Mbuf}
use dpdk_tools.Dpdkx.Clock.{timestamp_fix, ticks_of_ns, ns_per_s}
use dpdk_tools.Dpdkx.Clock.Laws.{timestamp_roundtrip}

abbrev blank : Memory
blank i = 0

header_roundtrip_example :
    (seqn (write_header 5 2 64 blank) ≡ 5)
    × (message_type (write_header 5 2 64 blank) ≡ 2)
    × (message_size (write_header 5 2 64 blank) ≡ 64)
    × (write_header 5 2 64 blank 20 ≡ 0)
header_roundtrip_example =
    header_roundtrip 5 2 64 blank 20 (omega arith) (omega arith) (omega arith) (omega arith)

header_wire_example :
    (load_be 8 0 (write_header 5 2 64 blank) ≡ 5)
    × (load_be 2 8 (write_header 5 2 64 blank) ≡ 2)
    × (load_be 4 10 (write_header 5 2 64 blank) ≡ 64)
header_wire_example = header_wire 5 2 64 blank (omega arith) (omega arith) (omega arith)

split_seqn-make_seqn_example : split_seqn (make_seqn 3 (2 ^ 28 + 5)) ≡ (3, (2 ^ 28 + 5) % 2 ^ 28)
split_seqn-make_seqn_example = split_seqn-make_seqn 3 (2 ^ 28 + 5) (omega arith) (omega arith)

-- One VLAN tag, then IPv4.
abbrev tagged_frame : Mbuf
tagged_frame = record {
  bytes = λ i. if i == 12 then 129 else if i == 16 then 8 else 0;
  data_len = 64;
  pkt_len = 64;
  l2_len = 0;
  l3_len = 0;
  l4_len = 0;
  ol_flags = 0;
  nb_segs = 1;
}

timestamp_roundtrip_example :
    (timestamp_fix 2500 (ticks_of_ns 2500 7000000) * 2500 ≤ 7000000 * 2500)
    × (7000000 * 2500 < timestamp_fix 2500 (ticks_of_ns 2500 7000000) * 2500 + 2500 + ns_per_s)
timestamp_roundtrip_example =
    timestamp_roundtrip 2500 7000000 (omega arith) (omega arith) (omega arith) (omega arith)
      (unfold ticks_of_ns in omega arith)
