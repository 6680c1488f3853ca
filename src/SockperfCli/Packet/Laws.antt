-- ===== src/SockperfCli/Packet/Laws.antt =====
-- A prepared packet read back as a message.
use dpdk_tools.Common.{ℕ, ◌+◌, ◌-◌, ◌^◌, ◌<◌, ◌≡◌, refl, ap, ◌∙◌, leb, inl, inr, true, arith}
use dpdk_tools.Common.Memory.{Memory, store_out, load_congr, load-store_apart}
use dpdk_tools.Common.ByteOrder.{bswap, bswap-load-store}
use dpdk_tools.Dpdkx.Mbuf.{Mbuf}
use dpdk_tools.Sockperf.Message.{seqn, message_type, set_seqn, set_message_type}
use dpdk_tools.SockperfCli.Packet.{from, prepare_packet, prepare_packet_headers, sockperf_payloadf}

module _ (phdr_cksum : ℕ → Memory → ℕ → ℕ) (udptcp_cksum : ℕ → Memory → ℕ) where
  -- Behind the headers stands the message alone.
  prepare_packet_message :
      (n t flags size : ℕ) (b : Mbuf) (i : ℕ)
      → from 42 (prepare_packet phdr_cksum udptcp_cksum n t flags size b).bytes i
        ≡ set_message_type t (set_seqn n (from 42 b.bytes)) i
  unfolding prepare_packet sockperf_payloadf prepare_packet_headers
  prepare_packet_message n t flags size b i =
      store_out 2 40 _ _ (42 + i) (inr (omega arith))
      ∙ store_out 2 40 0 _ (42 + i) (inr (omega arith))
      ∙ rw (inside, message) refl
    where
      inside : leb 42 (42 + i) ≡ true
      inside = ground arith

      message : (42 + i) - 42 ≡ i
      message = omega arith

  -- A packet that was prepared with a number and a type that fit their fields has them as the message
  -- behind its headers.
  pub prepare_packet-seqn :
      (n t flags size : ℕ) (b : Mbuf)
      → n < 256 ^ 8
      → t < 256 ^ 2
      → (seqn (from 42 (prepare_packet phdr_cksum udptcp_cksum n t flags size b).bytes) ≡ n)
        × (message_type (from 42 (prepare_packet phdr_cksum udptcp_cksum n t flags size b).bytes)
            ≡ t)
  unfolding seqn message_type set_seqn set_message_type
  prepare_packet-seqn n t flags size b hn ht = (
    ap (bswap 8) (
          load_congr 8 0 _ _ (λ i p q. prepare_packet_message n t flags size b i)
          ∙ load-store_apart 8 0 2 8 (bswap 2 t) _ (inl (omega arith)))
        ∙ bswap-load-store 8 0 n (from 42 b.bytes) hn,
    ap (bswap 2) (load_congr 2 8 _ _ (λ i p q. prepare_packet_message n t flags size b i))
        ∙ bswap-load-store 2 8 t _ ht,
  )
