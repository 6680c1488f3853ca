-- ===== src/Sockperf/Message/Laws.antt =====
-- What the header's accessors promise to one another and to the wire.
use dpdk_tools.Common.{ℕ, ◌^◌, ◌≤◌, ◌<◌, ◌≡◌, ◌∙◌, ap, inl, inr, arith}
use dpdk_tools.Common.Memory.{Memory, load-store_apart, store_out}
use dpdk_tools.Common.ByteOrder.{
  bswap, load_be, load_be-store, load_be-store_apart, bswap-load-store,
}
use dpdk_tools.Sockperf.Message.{
  seqn, set_seqn, message_type, set_message_type, message_size, set_message_size, header_size,
}

-- `configure_sockperf_packet_pool` writes the three fields in this order.
abbrev pub write_header : ℕ → ℕ → ℕ → Memory → Memory
write_header n t s packet = set_message_size s (set_message_type t (set_seqn n packet))

pub seqn-write_header :
    (n t s : ℕ) (packet : Memory) → n < 256 ^ 8 → seqn (write_header n t s packet) ≡ n
unfolding seqn set_seqn set_message_type set_message_size
seqn-write_header n t s packet h =
    ap (bswap 8) (load-store_apart 8 0 4 10 (bswap 4 s) _ (inl (omega arith)))
    ∙ ap (bswap 8) (load-store_apart 8 0 2 8 (bswap 2 t) _ (inl (omega arith)))
    ∙ bswap-load-store 8 0 n packet h

message_type-write_header :
    (n t s : ℕ) (packet : Memory) → t < 256 ^ 2 → message_type (write_header n t s packet) ≡ t
unfolding message_type set_message_type set_message_size
message_type-write_header n t s packet h =
    ap (bswap 2) (load-store_apart 2 8 4 10 (bswap 4 s) _ (inl (omega arith)))
    ∙ bswap-load-store 2 8 t _ h

message_size-write_header :
    (n t s : ℕ) (packet : Memory) → s < 256 ^ 4 → message_size (write_header n t s packet) ≡ s
unfolding message_size set_message_size
message_size-write_header n t s packet h = bswap-load-store 4 10 s _ h

payload-write_header :
    (n t s : ℕ) (packet : Memory) (i : ℕ) → header_size ≤ i → write_header n t s packet i ≡ packet i
unfolding set_seqn set_message_type set_message_size
payload-write_header n t s packet i h =
    store_out 4 10 (bswap 4 s) _ i (inr (omega arith))
    ∙ store_out 2 8 (bswap 2 t) _ i (inr (omega arith))
    ∙ store_out 8 0 (bswap 8 n) packet i (inr (omega arith))

-- A header written field by field reads back as the sequence number, the type and the size that
-- were written, where each fits its field; and a byte behind the header does not change.
pub header_roundtrip :
    (n t s : ℕ) (packet : Memory) (i : ℕ)
    → n < 256 ^ 8
    → t < 256 ^ 2
    → s < 256 ^ 4
    → header_size ≤ i
    → (seqn (write_header n t s packet) ≡ n)
      × (message_type (write_header n t s packet) ≡ t)
      × (message_size (write_header n t s packet) ≡ s)
      × (write_header n t s packet i ≡ packet i)
header_roundtrip n t s packet i hn ht hs hi = (
  seqn-write_header n t s packet hn,
  message_type-write_header n t s packet ht,
  message_size-write_header n t s packet hs,
  payload-write_header n t s packet i hi,
)

-- On the wire the fields of a written header, where each fits its field, stand in network order,
-- most significant byte first: the sequence number in bytes 0 to 7, the type in bytes 8 and 9, the
-- size in bytes 10 to 13.
pub header_wire :
    (n t s : ℕ) (packet : Memory)
    → n < 256 ^ 8
    → t < 256 ^ 2
    → s < 256 ^ 4
    → (load_be 8 0 (write_header n t s packet) ≡ n)
      × (load_be 2 8 (write_header n t s packet) ≡ t)
      × (load_be 4 10 (write_header n t s packet) ≡ s)
unfolding set_seqn set_message_type set_message_size
header_wire n t s packet hn ht hs = (
  load_be-store_apart 8 0 4 10 (bswap 4 s) _ (inl (omega arith))
      ∙ load_be-store_apart 8 0 2 8 (bswap 2 t) _ (inl (omega arith))
      ∙ load_be-store 8 0 n packet hn,
  load_be-store_apart 2 8 4 10 (bswap 4 s) _ (inl (omega arith)) ∙ load_be-store 2 8 t _ ht,
  load_be-store 4 10 s _ hs,
)
