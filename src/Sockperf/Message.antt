-- ===== src/Sockperf/Message.antt =====
-- sockperf/sockperf.hpp: the accessors of the message header, over the bytes behind `packet`. The
-- `assert`s on `size` are preconditions, and vanish in a release build.
pub mod Laws
use dpdk_tools.Sockperf.MessageType
use Prim.Native.String.{String}
use dpdk_tools.Common.{ℕ, ◌+◌, ◌-◌, ◌==◌, if◌then◌else◌}
use dpdk_tools.Common.Memory.{Memory, load, store}
use dpdk_tools.Common.ByteOrder.{bswap}

unfoldable pub to_string : ℕ → String
to_string t =
    if t == MessageType.pong
    then "pong"
    else if t == MessageType.ping
    then "ping"
    else if t == MessageType.warmup_pong
    then "warmup | pong"
    else if t == MessageType.warmup_ping
    then "warmup | ping"
    else "unknown"

-- sizeof(seqn_t) + sizeof(type) + sizeof(message_size_t)
abbrev pub header_size : ℕ
header_size = 8 + 2 + 4

unfoldable pub seqn : Memory → ℕ
seqn packet = bswap 8 (load 8 0 packet)

unfoldable pub set_seqn : ℕ → Memory → Memory
set_seqn value packet = store 8 0 (bswap 8 value) packet

unfoldable pub message_type : Memory → ℕ
message_type packet = bswap 2 (load 2 8 packet)

unfoldable pub set_message_type : ℕ → Memory → Memory
set_message_type value packet = store 2 8 (bswap 2 value) packet

unfoldable pub message_size : Memory → ℕ
message_size packet = bswap 4 (load 4 (8 + 2) packet)

unfoldable pub set_message_size : ℕ → Memory → Memory
set_message_size value packet = store 4 (8 + 2) (bswap 4 value) packet

-- The offset of the payload behind the header, and how much of `size` is left for it.
unfoldable pub payload : ℕ → ℕ
payload packet = packet + header_size

unfoldable pub payload_size : ℕ → ℕ
payload_size size = size - header_size
