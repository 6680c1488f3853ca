-- ===== src/Sockperf/Seqn.antt =====
-- sockperf/x.hpp: the client keeps the tx queue in the top byte of a sequence number, and marks a
-- warm-up message by the top bit.
pub mod Laws
use dpdk_tools.Common.{ℕ, ◌*◌, ◌/◌, ◌%◌, ◌^◌, ◌==◌, Bool, not, bit_and, bit_or}

abbrev pub warmup_mask : ℕ
warmup_mask = 2 ^ 63

unfoldable pub is_warmup : ℕ → Bool
is_warmup seqn = not (bit_and seqn warmup_mask == 0)

unfoldable pub warmup : ℕ → ℕ
warmup seqn = bit_or seqn warmup_mask

-- `(static_cast<seqn_t>(queue) << 56) | seqn`
unfoldable pub make_seqn : ℕ → ℕ → ℕ
make_seqn queue seqn = bit_or (queue * 2 ^ 56 % 2 ^ 64) seqn

-- The first part is narrowed to `std::uint8_t`.
unfoldable pub split_seqn : ℕ → ℕ × ℕ
split_seqn seqn = (seqn / 2 ^ 56 % 2 ^ 8, bit_and seqn 0xfffffff)
