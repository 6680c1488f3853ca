-- ===== src/Dpdkx/UdpTx/Laws.antt =====
-- What `updtx_channel::send` puts on a ring.
use dpdk_tools.Common.{
  ℕ, ◌+◌, ◌-◌, ◌≤◌, ◌<◌, ◌≡◌, refl, ap, ◌∙◌, ltb, if◌then◌else◌, Bool, true, false, Bool-cases,
  Option-cases, ◌⊎◌, inl, inr, List, [], ◌∷◌, ◌++◌, append-nil, length, Option, none, some, arith,
}
use dpdk_tools.Common.Memory.{Memory, store, store_out}
use dpdk_tools.Common.Writes.{write_all, write_all_end}
use dpdk_tools.Dpdkx.Mbuf.{Mbuf}
use dpdk_tools.Dpdkx.UdpTx.{
  memcpy, UdpTxChannel, Destination, Sender, headers, headers_size, fill, Sent, no_buffers, offered,
  address, chain_head, single, offer, send,
}
use dpdk_tools.Dpdkx.UdpTx.Fill.{
  read, read_congr, read-memcpy, contents, EachAtMost, Filled, whole, short, fill_total,
}

if_past :
    (b : Bool) (x : ℕ) (m m₀ : Memory) (i : ℕ)
    → 42 ≤ i
    → m i ≡ m₀ i
    → (if b then m else store 2 24 x m) i ≡ m₀ i
if_past true x m m₀ i h e = e
if_past false x m m₀ i h e = store_out 2 24 x m i (inr (omega arith)) ∙ e

headers_past :
    (ch : UdpTxChannel) (dev : Sender) (dst : Destination) (n : ℕ) (m : Memory) (i : ℕ)
    → 42 ≤ i
    → write_all (headers ch dev dst n) m i ≡ m i
headers_past ch dev dst n m i h = write_all_end i (headers ch dev dst n) m h

-- The bytes of a chain behind its headers.
abbrev datagram : Mbuf → List Mbuf → List ℕ
datagram head segs = read (head.data_len - headers_size) headers_size head.bytes ++ contents segs

single-datagram :
    (n : ℕ) (payload : Memory) (b : Mbuf)
    → headers_size + n < 65536
    → datagram (single n payload b) [] ≡ read n 0 payload
unfolding single
single-datagram n payload b h =
    append-nil _
    ∙ ap (λ k. read k headers_size (memcpy n headers_size 0 payload b.bytes)) (omega arith)
    ∙ read-memcpy n headers_size 0 payload b.bytes

module _ (ipv4_cksum : ℕ → Memory → ℕ) (phdr_cksum : ℕ → Memory → ℕ → ℕ)
    (udp_cksum : Mbuf → List Mbuf → ℕ → ℕ) where
  -- The headers end before the payload.
  address_past :
      (ch : UdpTxChannel) (dev : Sender) (dst : Destination) (n : ℕ) (segs : List Mbuf)
      (head : Mbuf) (i : ℕ)
      → 42 ≤ i
      → (address ipv4_cksum phdr_cksum udp_cksum ch dev dst n segs head).bytes i ≡ head.bytes i
  unfolding address
  address_past ch dev dst n segs head i h =
      store_out 2 40 _ _ i (inr (omega arith))
      ∙ if_past dev.ipv4_cksum_offload _ _ head.bytes i h (headers_past ch dev dst n head.bytes i h)

  address-datagram :
      (ch : UdpTxChannel) (dev : Sender) (dst : Destination) (n : ℕ) (segs : List Mbuf)
      (head : Mbuf)
      → datagram (address ipv4_cksum phdr_cksum udp_cksum ch dev dst n segs head) segs
        ≡ datagram head segs
  unfolding address
  address-datagram ch dev dst n segs head =
      ap (λ l. l ++ contents segs)
        (read_congr (head.data_len - headers_size) headers_size headers_size _ head.bytes
          (λ i p. address_past ch dev dst n segs head (headers_size + i) (omega arith)))

  -- What becomes of a payload of `n` bytes. Either a pool has no buffer left; or what is offered to
  -- the ring fits its buffers and carries the payload, and the caller hears what the ring answers.
  pub data Carried (header : Option Mbuf) (alloc : ℕ → Option Mbuf)
      (enque : Mbuf → List Mbuf → Bool) (packet_buf_size n : ℕ) (payload : Memory)
      : Sent → Type 0 where
    without :
        (bs : List Mbuf)
        → (header ≡ none) ⊎ ((i : ℕ) × (alloc i ≡ none))
        → Carried header alloc enque packet_buf_size n payload (no_buffers bs)
    with :
        (h : Mbuf) (ss : List Mbuf)
        → datagram h ss ≡ read n 0 payload
        → h.data_len ≤ packet_buf_size
        → EachAtMost packet_buf_size ss
        → Carried header alloc enque packet_buf_size n payload (offered h ss (enque h ss))

  offer-Carried :
      (header : Option Mbuf) (alloc : ℕ → Option Mbuf) (enque : Mbuf → List Mbuf → Bool)
      (ch : UdpTxChannel) (dev : Sender) (dst : Destination) (n : ℕ) (payload : Memory)
      (segs : List Mbuf) (head : Mbuf)
      → datagram head segs ≡ read n 0 payload
      → head.data_len ≤ ch.packet_buf_size
      → EachAtMost ch.packet_buf_size segs
      → Carried header alloc enque ch.packet_buf_size n payload
          (offer ipv4_cksum phdr_cksum udp_cksum header alloc enque ch dev dst n segs head)
  unfolding address
  offer-Carried header alloc enque ch dev dst n payload segs head e room small =
      with (address ipv4_cksum phdr_cksum udp_cksum ch dev dst n segs head) segs
        (address-datagram ch dev dst n segs head ∙ e) room small

  -- `send` returns, for a payload of any length and buffers with room for the headers, on fuel above
  -- that length. If the pools have the buffers it needs, it offers to the ring a chain that carries
  -- the payload's bytes in order, each segment within its buffer, and it returns the ring's answer.
  pub send-Carried :
      (header : Option Mbuf) (alloc : ℕ → Option Mbuf) (enque : Mbuf → List Mbuf → Bool) (fuel : ℕ)
      (ch : UdpTxChannel) (dev : Sender) (dst : Destination) (n : ℕ) (payload : Memory)
      → headers_size ≤ ch.packet_buf_size
      → ch.packet_buf_size < 65536
      → n < fuel
      → (r : Sent) × (send ipv4_cksum phdr_cksum udp_cksum header alloc enque fuel ch dev dst n
            payload
          ≡ some r)
        × Carried header alloc enque ch.packet_buf_size n payload r
  unfolding send
  send-Carried header alloc enque fuel ch dev dst n payload room small enough =
      elim (Bool-cases (ltb ch.packet_buf_size (headers_size + n))) [
        | inr fits ↦ elim (Option-cases (alloc 0)) [
          | inl gone ↦ (no_buffers [], rw (fits, gone, send) refl, without [] (inr (0, gone)))
          | inr (b, got) ↦ (
            offer ipv4_cksum phdr_cksum udp_cksum header alloc enque ch dev dst n []
                (single n payload b),
            rw (fits, got, send) refl,
            offer-Carried header alloc enque ch dev dst n payload [] (single n payload b)
                (single-datagram n payload b (ground arith)) (unfold single in ground arith) tt,
          )
        ]
        | inl long ↦ elim (Option-cases header) [
          | inl gone ↦ (no_buffers [], rw (long, gone, send) refl, without [] (inl gone))
          | inr (b, got) ↦ chained long b got (
              fill_total alloc ch.packet_buf_size n payload fuel 0 n (omega arith) (omega arith)
                enough)
        ]
      ]
    where
      chained :
          ltb ch.packet_buf_size (headers_size + n) ≡ true
          → (b : Mbuf) → header ≡ some b
          → (r : Bool × List Mbuf) × (fill alloc ch.packet_buf_size n payload fuel 0 n ≡ some r)
            × Filled alloc ch.packet_buf_size n payload 0 n r
          → (r : Sent) × (send ipv4_cksum phdr_cksum udp_cksum header alloc enque fuel ch dev dst n
                payload
              ≡ some r)
            × Carried header alloc enque ch.packet_buf_size n payload r
      chained long b got (r, e, short ss gone) = (
        no_buffers (chain_head b ss ∷ ss),
        rw (long, got, e, send) refl,
        without _ (inr (0 + length ss, gone)),
      )
      chained long b got (r, e, whole ss c small) = (
        offer ipv4_cksum phdr_cksum udp_cksum header alloc enque ch dev dst n ss (chain_head b ss),
        rw (long, got, e, send) refl,
        offer-Carried header alloc enque ch dev dst n payload ss (chain_head b ss)
            (c ∙ ap (λ k. read n k payload) (omega arith)) room small,
      )
