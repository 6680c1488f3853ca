-- ===== src/Dpdkx/Device/Sinks/Stub.antt =====
-- dpdkx/flow/rx_queue.cpp and rx_queue.hpp: the flow that a queue begins with.
use dpdk_tools.Common.{
  ℕ, ◌+◌, ◌*◌, ◌/◌, ◌%◌, ◌^◌, ◌<◌, ◌≡◌, ap, ◌∙◌, [], ◌∷◌, if◌then◌else◌, true, bit_or, arith,
}
use dpdk_tools.Common.Bits.{bit_or_step, zero-bit_or}
use dpdk_tools.Common.ByteOrder.{bswap}
use dpdk_tools.Dpdkx.Device.Sinks.{
  Endpoint, RxQueue, Environment, Outcome, ok, thrown, flow_error, is_ipv4_mcast,
}

-- The address 224.x.y.z, in network order.
unfoldable pub flow_stub_endpoint : ℕ → Endpoint
flow_stub_endpoint queue_id = record { ip = bit_or 0xe0 (bswap 4 queue_id); port = 0 }

unfoldable pub start : Environment → ℕ → RxQueue → Outcome × RxQueue
unfolding flow_stub_endpoint
start env queue_id q = elim (q.routes) [
  | [] ↦
      let ep = flow_stub_endpoint queue_id in
      if env.make_flow ep then (ok, record q { routes = ep ∷ [] }) else (thrown flow_error, q)
  | r ∷ rs ↦ (ok, q)
]

or_224 : (x : ℕ) → bit_or 0xe0 (x * 65536) ≡ 0xe0 + x * 65536
or_224 x = omega (
  arith,
  bit_or_step 0xe0 (x * 65536),
  bit_or_step 0x70 (x * 32768),
  bit_or_step 0x38 (x * 16384),
  bit_or_step 0x1c (x * 8192),
  bit_or_step 0xe (x * 4096),
  bit_or_step 7 (x * 2048),
  bit_or_step 3 (x * 1024),
  bit_or_step 1 (x * 512),
  zero-bit_or (x * 256),
  h0,
  h1,
  h2,
  h3,
  h4,
  h5,
  h6,
  h7,
)
  where
    h0 : bit_or (0xe0 / 2) (x * 65536 / 2) ≡ bit_or 0x70 (x * 32768)
    h0 = ap (bit_or 0x70) (omega arith)

    h1 : bit_or (0x70 / 2) (x * 32768 / 2) ≡ bit_or 0x38 (x * 16384)
    h1 = ap (bit_or 0x38) (omega arith)

    h2 : bit_or (0x38 / 2) (x * 16384 / 2) ≡ bit_or 0x1c (x * 8192)
    h2 = ap (bit_or 0x1c) (omega arith)

    h3 : bit_or (0x1c / 2) (x * 8192 / 2) ≡ bit_or 0xe (x * 4096)
    h3 = ap (bit_or 0xe) (omega arith)

    h4 : bit_or (0xe / 2) (x * 4096 / 2) ≡ bit_or 7 (x * 2048)
    h4 = ap (bit_or 7) (omega arith)

    h5 : bit_or (7 / 2) (x * 2048 / 2) ≡ bit_or 3 (x * 1024)
    h5 = ap (bit_or 3) (omega arith)

    h6 : bit_or (3 / 2) (x * 1024 / 2) ≡ bit_or 1 (x * 512)
    h6 = ap (bit_or 1) (omega arith)

    h7 : bit_or (1 / 2) (x * 512 / 2) ≡ bit_or 0 (x * 256)
    h7 = ap (bit_or 0) (omega arith)

-- The stub endpoint of a queue is a multicast address, by its number: that of queue `q` is the address
-- that begins with 224 and ends with `q`.
flow_stub_endpoint-multicast :
    (q : ℕ)
    → q < 2 ^ 16
    → (bswap 4 (flow_stub_endpoint q).ip ≡ 224 * 2 ^ 24 + q)
      × (is_ipv4_mcast (bswap 4 (flow_stub_endpoint q).ip) ≡ true)
unfolding flow_stub_endpoint is_ipv4_mcast bswap
flow_stub_endpoint-multicast q h = (address, ap is_ipv4_mcast address ∙ in_groups)
  where
    x : ℕ
    x = q % 256 * 256 + q / 256

    swapped : bswap 4 q ≡ x * 65536
    swapped = omega (arith, h)

    back : bswap 4 (0xe0 + x * 65536) ≡ 224 * 2 ^ 24 + q
    back = omega (arith, h)

    address : bswap 4 (bit_or 0xe0 (bswap 4 q)) ≡ 224 * 2 ^ 24 + q
    address = ap (λ y. bswap 4 (bit_or 0xe0 y)) swapped ∙ ap (bswap 4) (or_224 x) ∙ back

    in_groups : is_ipv4_mcast (224 * 2 ^ 24 + q) ≡ true
    in_groups = ground arith
