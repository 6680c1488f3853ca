-- ===== src/Sockperf/MessageType.antt =====
-- sockperf/sockperf.hpp: `enum class type : std::uint16_t`; a message may carry any other 16-bit value too.
use dpdk_tools.Common.{ℕ, bit_or}

abbrev pub client : ℕ
client = 1

abbrev pub pong : ℕ
pong = 2

abbrev pub ping : ℕ
ping = 3

abbrev pub warmup_message : ℕ
warmup_message = 4

abbrev pub warmup_pong : ℕ
warmup_pong = bit_or 4 2

abbrev pub warmup_ping : ℕ
warmup_ping = bit_or 4 3
