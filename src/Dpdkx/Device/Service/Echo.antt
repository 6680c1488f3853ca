-- ===== src/Dpdkx/Device/Service/Echo.antt =====
-- The checksum of an ICMP echo reply.
use dpdk_tools.Common.{
  ℕ, zero, suc, ◌+◌, ◌*◌, ◌%◌, ◌≤◌, ◌<◌, ◌≡◌, refl, ◌∙◌, ap, ap₂, sym, inl, inr, Bool-cases, [],
  ◌∷◌, arith,
}
use dpdk_tools.Common.Memory.{
  Memory, load, store, store_out, load_congr, load-store_apart, load-store_mod,
}
use dpdk_tools.Common.ByteOrder.{bswap}
use dpdk_tools.Common.Writes.{Writes, write_all, write_all_past}
use dpdk_tools.Dpdkx.Proto.{be16}
use dpdk_tools.Dpdkx.Mbuf.{Mbuf}
use dpdk_tools.Dpdkx.Device.Host.{Host}
use dpdk_tools.Dpdkx.Device.RxJob.{l3size}
use dpdk_tools.Dpdkx.Device.Service.{
  icmp_reply_cksum, is_multicast_ipv4_addr, reply_source, swap_ip, echo_reply,
}

-- The sum that an ICMP checksum makes zero, modulo 65535: the words of the message.
pub words : ℕ → ℕ → Memory → ℕ
words zero off m = 0
words (suc n) off m = load 2 off m + words n (off + 2) m

words_congr :
    (n off : ℕ) (m m' : Memory) → ((i : ℕ) → off ≤ i → m i ≡ m' i) → words n off m ≡ words n off m'
unfolding words
words_congr zero off m m' h = refl
words_congr (suc n) off m m' h =
    ap₂ ◌+◌ (load_congr 2 off m m' (λ i p q. h i p))
      (words_congr n (off + 2) m m' (λ i p. h i (omega arith)))

-- The update takes the request's type out of the sum and puts the reply's, 0, in.
icmp_reply_cksum-sum :
    (c r : ℕ) → c < 65536 → (0 + (icmp_reply_cksum c + r)) % 65535 ≡ (8 + (c + r)) % 65535
unfolding icmp_reply_cksum be16 bswap
icmp_reply_cksum-sum c r h = omega arith

icmp_reply_cksum_fits : (c : ℕ) → icmp_reply_cksum c < 65536
unfolding icmp_reply_cksum
icmp_reply_cksum_fits c = omega arith

load_bytes : (at : ℕ) (m : Memory) → load 2 at m ≡ load 1 at m + 256 * load 1 (at + 1) m
unfolding load
load_bytes at m = omega (arith, ap m next)
  where
    next : suc at ≡ at + 1
    next = omega arith

module _ (cksum : ℕ → Memory → ℕ) (host : Host) where
  -- The addresses of the IPv4 header change, and nothing behind that header.
  swap_ip_past : (p : Mbuf) (i : ℕ) → p.l2_len + 20 ≤ i → (swap_ip cksum host p).bytes i ≡ p.bytes i
  unfolding swap_ip write_all
  swap_ip_past p i h = elim (Bool-cases (is_multicast_ipv4_addr (load 4 (p.l2_len + 16) p.bytes))) [
    | inr one ↦
        rw (one, swap_ip)
          (write_all_past i
            ((4, p.l2_len + 16, load 4 (p.l2_len + 12) p.bytes)
              ∷ (4, p.l2_len + 12, host.ip4addr)
              ∷ [])
            p.bytes (omega arith, (omega arith, tt)))
    | inl many ↦
        rw (many, swap_ip)
          (elim (Bool-cases host.ipv4_cksum_offload) [
            | inl offload ↦ rw offload multicast
            | inr software ↦
                rw software (store_out 2 (p.l2_len + 10) _ _ i (inr (omega arith)) ∙ multicast)
          ])
  ]
    where
      fields : Writes
      fields =
          (4, p.l2_len + 16, load 4 (p.l2_len + 12) p.bytes)
          ∷ (4, p.l2_len + 12, reply_source (load 4 (p.l2_len + 12) p.bytes))
          ∷ (2, p.l2_len + 10, 0)
          ∷ []

      multicast : write_all fields p.bytes i ≡ p.bytes i
      multicast = write_all_past i fields p.bytes (omega arith, (omega arith, (omega arith, tt)))

  -- So does the reply before its type and its checksum are set.
  addressed_past :
      (p : Mbuf) (m : Memory) (i : ℕ)
      → 12 ≤ p.l2_len
      → p.l2_len + 20 ≤ i
      → (swap_ip cksum host (record p {
        bytes = write_all ((6, 0, load 6 6 p.bytes) ∷ (6, 6, host.mac_addr) ∷ []) m;
      })).bytes
          i
        ≡ m i
  addressed_past p m i l2 h =
      swap_ip_past _ i h
      ∙ write_all_past i ((6, 0, load 6 6 p.bytes) ∷ (6, 6, host.mac_addr) ∷ []) m
          (omega arith, (omega arith, tt))

  -- Type, code and checksum of a reply, over a buffer that is the request's from there on.
  words-reply :
      (n at : ℕ) (m a : Memory)
      → ((i : ℕ) → at ≤ i → a i ≡ m i)
      → load 1 at m ≡ 8
      → load 1 (at + 1) m ≡ 0
      → load 2 (at + 2) m < 65536
      → let r =
          store 2 (at + 2) (icmp_reply_cksum (load 2 (at + 2) (store 1 at 0 a))) (store 1 at 0 a) in
        (words (suc (suc n)) at r % 65535 ≡ words (suc (suc n)) at m % 65535)
        × (words n (at + 2 + 2) r ≡ words n (at + 2 + 2) m)
  unfolding words
  words-reply n at m a same type code fits = (
    ap (λ x. x % 65535) (ap₂ ◌+◌ type' (ap₂ ◌+◌ cksum' rest))
        ∙ icmp_reply_cksum-sum (load 2 (at + 2) m) (words n (at + 2 + 2) m) fits
        ∙ ap (λ x. (x + (load 2 (at + 2) m + words n (at + 2 + 2) m)) % 65535) (sym whole),
    rest,
  )
    where
      typed : Memory
      typed = store 1 at 0 a

      reply : Memory
      reply = store 2 (at + 2) (icmp_reply_cksum (load 2 (at + 2) typed)) typed

      whole : load 2 at m ≡ 8
      whole = load_bytes at m ∙ ap₂ (λ x y. x + 256 * y) type code

      type' : load 2 at reply ≡ 0
      type' =
          load-store_apart 2 at 2 (at + 2) _ typed (inl (omega arith))
          ∙ load_bytes at typed
          ∙ ap₂ (λ x y. x + 256 * y) (load-store_mod 1 at 0 a (omega arith))
              (load-store_apart 1 (at + 1) 1 at 0 a (inr (omega arith))
                ∙ load_congr 1 (at + 1) a m (λ i p q. same i (omega arith))
                ∙ code)

      old : load 2 (at + 2) typed ≡ load 2 (at + 2) m
      old =
          load-store_apart 2 (at + 2) 1 at 0 a (inr (omega arith))
          ∙ load_congr 2 (at + 2) a m (λ i p q. same i (omega arith))

      cksum' : load 2 (at + 2) reply ≡ icmp_reply_cksum (load 2 (at + 2) m)
      cksum' =
          load-store_mod 2 (at + 2) (icmp_reply_cksum (load 2 (at + 2) typed)) typed
            (icmp_reply_cksum_fits (load 2 (at + 2) typed))
          ∙ ap icmp_reply_cksum old

      rest : words n (at + 2 + 2) reply ≡ words n (at + 2 + 2) m
      rest = words_congr n (at + 2 + 2) reply m (λ i h.
          store_out 2 (at + 2) _ typed i (inr (omega arith))
          ∙ store_out 1 at 0 a i (inr (omega arith))
          ∙ same i (omega arith))

  -- The reply to an echo request, whatever its length: the sum of the message's 16-bit words, modulo
  -- 65535, is that of the request, and so is the sum of the words behind the checksum, exactly. The
  -- request stands behind an Ethernet header and an IPv4 header of at least 20 bytes, its type is 8
  -- and its code 0.
  pub echo_reply-words :
      (n : ℕ) (p : Mbuf)
      → 12 ≤ p.l2_len
      → 20 ≤ l3size p
      → load 1 (p.l2_len + l3size p) p.bytes ≡ 8
      → load 1 (p.l2_len + l3size p + 1) p.bytes ≡ 0
      → load 2 (p.l2_len + l3size p + 2) p.bytes < 65536
      → let at = p.l2_len + l3size p in
        let r = (echo_reply cksum host p).bytes in
        (words (suc (suc n)) at r % 65535 ≡ words (suc (suc n)) at p.bytes % 65535)
        × (words n (at + 2 + 2) r ≡ words n (at + 2 + 2) p.bytes)
  unfolding echo_reply
  echo_reply-words n p l2 l3 type code fits =
      words-reply n (p.l2_len + l3size p) p.bytes _
        (λ i h. addressed_past p p.bytes i l2 (omega arith)) type code fits
