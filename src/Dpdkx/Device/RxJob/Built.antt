-- ===== src/Dpdkx/Device/RxJob/Built.antt =====
-- What a receiver makes of a packet that `make_udp` (dpdkx/mbuf.cpp) began.
use dpdk_tools.Common.{ℕ, suc, ◌+◌, ◌%◌, ◌≤◌, ◌<◌, ◌≡◌, refl, ◌∙◌, ap, some, false, arith, inl}
use native.Mathlib.Nat.{mod-eq_of_lt}
use dpdk_tools.Common.Memory.{load, store, load-store_apart}
use dpdk_tools.Common.ByteOrder.{bswap, bswap-load-store}
use dpdk_tools.Dpdkx.Proto.{be16, ether_type_ipv4, proto_udp}
use dpdk_tools.Dpdkx.Mbuf.{Mbuf}
use dpdk_tools.Dpdkx.Mbuf.L2.{eth_proto, is_tag, skip_tags, update_l2size}
use dpdk_tools.Dpdkx.Mbuf.Build.{make_udp}
use dpdk_tools.Dpdkx.Device.RxJob.{udp, kind, l3size, next_proto_id, dgram_len}

eth_proto-make_udp : (n : ℕ) (b : Mbuf) → eth_proto (make_udp n b) ≡ be16 ether_type_ipv4
unfolding eth_proto make_udp load store be16 bswap
eth_proto-make_udp n b = refl

l3size-make_udp : (n : ℕ) (b : Mbuf) → l3size (make_udp n b) ≡ 20
unfolding l3size make_udp load store be16 bswap
l3size-make_udp n b = refl

next_proto_id-make_udp : (n : ℕ) (b : Mbuf) → next_proto_id (make_udp n b) ≡ proto_udp
unfolding next_proto_id make_udp load store be16 bswap
next_proto_id-make_udp n b = refl

dgram_len-make_udp : (n : ℕ) (b : Mbuf) → 8 + n < 65536 → dgram_len (make_udp n b) ≡ 8 + n
unfolding dgram_len make_udp l3size
dgram_len-make_udp n b h =
    ap (λ s. bswap 2 (load 2 (14 + s + 4) (make_udp n b).bytes)) (l3size-make_udp n b)
    ∙ ap (bswap 2) (load-store_apart 2 38 2 40 0 _ (inl (omega arith)))
    ∙ bswap-load-store 2 38 ((8 + n) % 65536) _ (omega arith)
    ∙ mod-eq_of_lt h

data_len-make_udp : (n : ℕ) (b : Mbuf) → 42 + n < 65536 → (make_udp n b).data_len ≡ 42 + n
unfolding make_udp
data_len-make_udp n b h = omega arith

total_length-make_udp :
    (n : ℕ) (b : Mbuf) → 28 + n < 65536 → bswap 2 (load 2 16 (make_udp n b).bytes) ≡ 28 + n
total_length-make_udp n b h =
    ap (bswap 2) stored ∙ bswap-load-store 2 16 _ b.bytes (omega arith) ∙ omega arith
  where
    stored :
        load 2 16 (make_udp n b).bytes
        ≡ load 2 16 (store 2 16 (bswap 2 ((20 + (8 + n)) % 65536)) b.bytes)
    stored = unfold load store make_udp in refl

l2_len-make_udp : (n : ℕ) (b : Mbuf) → (make_udp n b).l2_len ≡ 14
unfolding make_udp
l2_len-make_udp n b = refl

payload-make_udp : (n : ℕ) (b : Mbuf) (i : ℕ) → 42 ≤ i → (make_udp n b).bytes i ≡ b.bytes i
unfolding make_udp store
payload-make_udp n b i h = ground arith

kind-make_udp : (n : ℕ) (b : Mbuf) → 42 + n < 65536 → kind (make_udp n b) ≡ udp
unfolding kind
kind-make_udp n b h = ground (
  arith,
  eth_proto-make_udp n b,
  next_proto_id-make_udp n b,
  l3size-make_udp n b,
  dgram_len-make_udp n b (omega arith),
  data_len-make_udp n b h,
  ipv4_sound,
  l2_len-make_udp n b,
)
  where
    ipv4_sound : be16 ether_type_ipv4 ≡ 8
    ipv4_sound = unfold be16 bswap in refl

-- A packet with no tag ends the loop at once.
update_l2size_untagged :
    (l2_mod fuel : ℕ) (p : Mbuf) (proto : ℕ)
    → 14 ≤ p.data_len
    → load 2 12 p.bytes ≡ proto
    → is_tag proto ≡ false
    → update_l2size l2_mod (suc fuel) p ≡ some (proto, record p { l2_len = 14 })
unfolding update_l2size skip_tags
update_l2size_untagged l2_mod fuel p proto enough e plain = ground (arith, ap is_tag e ∙ plain)

update_l2size-make_udp :
    (l2_mod fuel n : ℕ) (b : Mbuf)
    → 42 + n < 65536
    → update_l2size l2_mod (suc fuel) (make_udp n b) ≡ some (be16 ether_type_ipv4, make_udp n b)
unfolding is_tag be16 bswap make_udp eth_proto
update_l2size-make_udp l2_mod fuel n b h =
    update_l2size_untagged l2_mod fuel (make_udp n b) 8 (omega (arith, data_len-make_udp n b h))
      (eth_proto-make_udp n b) refl

-- A packet that `make_udp` began for a payload with which the frame stays below 65536 bytes is taken
-- by a receiver for a sound UDP packet: `update_l2size` ends in its first round, names IPv4 and leaves
-- the packet as it is; no test of the lengths fails; the lengths in the headers count the payload and
-- the headers from there on; and a byte of the payload is the one that was in the buffer.
pub make_udp-kind :
    (l2_mod fuel n : ℕ) (b : Mbuf) (i : ℕ)
    → 42 + n < 65536
    → 42 ≤ i
    → let p = make_udp n b in
      (update_l2size l2_mod (suc fuel) p ≡ some (be16 ether_type_ipv4, p))
      × (kind p ≡ udp)
      × (p.data_len ≡ 42 + n)
      × (bswap 2 (load 2 16 p.bytes) ≡ 28 + n)
      × (dgram_len p ≡ 8 + n)
      × (p.bytes i ≡ b.bytes i)
make_udp-kind l2_mod fuel n b i h past = (
  update_l2size-make_udp l2_mod fuel n b h,
  kind-make_udp n b h,
  data_len-make_udp n b h,
  total_length-make_udp n b (omega arith),
  dgram_len-make_udp n b (omega arith),
  payload-make_udp n b i past,
)
