-- ===== src/Dpdkx/UdpTx/Fill.antt =====
-- The segments that `updtx_channel::send` fills.
use dpdk_tools.Common.{
  ℕ, zero, suc, ◌+◌, ◌-◌, ◌≤◌, ◌<◌, ◌≡◌, refl, sym, ap, ap₂, ◌∙◌, ltb, leb, ◌==◌, ◌&&◌, Bool, true,
  false, Bool-cases, Option-cases, inl, inr, List, [], ◌∷◌, ◌++◌, length, Option, none, some, arith,
}
use dpdk_tools.Common.Memory.{Memory}
use dpdk_tools.Dpdkx.Mbuf.{Mbuf}
use dpdk_tools.Dpdkx.UdpTx.{memcpy, part, segment, fill}

-- `n` bytes from an offset on.
abbrev pub read : ℕ → ℕ → Memory → List ℕ
read zero off m = []
read (suc n) off m = m off ∷ read n (suc off) m

-- The bytes of a chain of segments.
abbrev pub contents : List Mbuf → List ℕ
contents [] = []
contents (s ∷ ss) = read s.data_len 0 s.bytes ++ contents ss

abbrev pub EachAtMost : ℕ → List Mbuf → Type 0
EachAtMost k [] = Unit
EachAtMost k (s ∷ ss) = (s.data_len ≤ k) × EachAtMost k ss

pub read_congr :
    (n off off' : ℕ) (m m' : Memory)
    → ((i : ℕ) → i < n → m (off + i) ≡ m' (off' + i))
    → read n off m ≡ read n off' m'
read_congr zero off off' m m' h = refl
read_congr (suc n) off off' m m' h =
    ap₂ ◌∷◌ (ap m (omega arith) ∙ h 0 (omega arith) ∙ ap m' (omega arith)) (
      read_congr n (suc off) (suc off') m m'
        (λ i p. ap m (omega arith) ∙ h (suc i) (omega arith) ∙ ap m' (omega arith)))

pub read-memcpy :
    (n dst from : ℕ) (src m : Memory) → read n dst (memcpy n dst from src m) ≡ read n from src
unfolding memcpy
read-memcpy n dst from src m =
    read_congr n dst from (memcpy n dst from src m) src
      (λ i p. rw (inside i p, memcpy) (ap src (omega arith)))
  where
    inside : (i : ℕ) → i < n → (leb dst (dst + i) && ltb (dst + i) (dst + n)) ≡ true
    inside i p = ground arith

read_append : (a b off : ℕ) (m : Memory) → read (a + b) off m ≡ read a off m ++ read b (off + a) m
read_append zero b off m = ap₂ (λ x y. read x y m) (omega arith) (omega arith)
read_append (suc a) b off m =
    ap (λ k. read k off m) next
    ∙ ap (◌∷◌ (m off))
        (read_append a b (suc off) m ∙ ap (λ k. read a (suc off) m ++ read b k m) (omega arith))
  where
    next : suc a + b ≡ suc (a + b)
    next = omega arith

part_le : (left k : ℕ) → part left k ≤ left
part_le left k = ground arith

part_bound : (left k : ℕ) → part left k ≤ k
part_bound left k = ground arith

part_pos : (left k : ℕ) → 0 < k → 0 < left → 0 < part left k
part_pos left k p q = ground arith

module _ (alloc : ℕ → Option Mbuf) (packet_buf_size payload_size : ℕ) (payload : Memory) where
  -- What the loop gives: the part of the payload that was left, in segments that fit; or the segments
  -- up to a buffer that was not there.
  pub data Filled (i left : ℕ) : Bool × List Mbuf → Type 0 where
    whole :
        (ss : List Mbuf)
        → contents ss ≡ read left (payload_size - left) payload
        → EachAtMost packet_buf_size ss
        → Filled i left (true, ss)
    short : (ss : List Mbuf) → alloc (i + length ss) ≡ none → Filled i left (false, ss)

  segment-read :
      (left : ℕ) (b : Mbuf)
      → contents (segment packet_buf_size payload_size payload left b ∷ [])
        ≡ read (part left packet_buf_size) (payload_size - left) payload ++ []
  unfolding segment
  segment-read left b =
      ap (λ l. l ++ [])
        (read-memcpy (part left packet_buf_size) 0 (payload_size - left) payload b.bytes)

  -- A segment and the rest of the payload.
  read_parts :
      (left : ℕ)
      → left ≤ payload_size
      → read (part left packet_buf_size) (payload_size - left) payload
          ++ read
              (left - part left packet_buf_size)
              (payload_size - (left - part left packet_buf_size))
              payload
        ≡ read left (payload_size - left) payload
  read_parts left le =
      ap (λ k. read n off payload ++ read (left - n) k payload)
        (behind n (part_le left packet_buf_size))
      ∙ sym (read_append n (left - n) off payload)
      ∙ ap (λ k. read k off payload) (both n (part_le left packet_buf_size))
    where
      n : ℕ
      n = part left packet_buf_size

      off : ℕ
      off = payload_size - left

      behind : (n : ℕ) → n ≤ left → payload_size - (left - n) ≡ payload_size - left + n
      behind n h = omega arith

      both : (n : ℕ) → n ≤ left → n + (left - n) ≡ left
      both n h = omega arith

  pub fill_total :
      (fuel i left : ℕ)
      → 0 < packet_buf_size
      → left ≤ payload_size
      → left < fuel
      → (r : Bool × List Mbuf) × (fill alloc packet_buf_size payload_size payload fuel i left
          ≡ some r)
        × Filled i left r
  unfolding fill
  fill_total zero i left pos le lt = absurd (omega arith)
  fill_total (suc fuel) i left pos le lt = elim (Option-cases (alloc i)) [
    | inl gone ↦ ((false, []), rw (gone, fill) refl, short [] (ap alloc (omega arith) ∙ gone))
    | inr (b, got) ↦ elim (Bool-cases (left - part left packet_buf_size == 0)) [
      | inl last ↦ (
        (true, seg b ∷ []),
        rw (got, last, fill) refl,
        whole (seg b ∷ []) (final b last) (part_bound left packet_buf_size, tt),
      )
      | inr more ↦ further b got more (
          fill_total fuel (suc i) (left - part left packet_buf_size) pos (omega arith) (falls more))
    ]
  ]
    where
      falls :
          (left - part left packet_buf_size == 0) ≡ false → left - part left packet_buf_size < fuel
      falls more = ground (arith, part_pos left packet_buf_size pos)

      none_left :
          (left - part left packet_buf_size == 0) ≡ true → left - part left packet_buf_size ≡ 0
      none_left last = ground arith

      final :
          (b : Mbuf)
          → (left - part left packet_buf_size == 0) ≡ true
          → contents (segment packet_buf_size payload_size payload left b ∷ [])
            ≡ read left (payload_size - left) payload
      final b last =
          segment-read left b
          ∙ sym (
              ap
                (λ k.
                  read (part left packet_buf_size) (payload_size - left) payload
                  ++ read k (payload_size - k) payload)
                (none_left last))
          ∙ read_parts left le

      seg : Mbuf → Mbuf
      seg b = segment packet_buf_size payload_size payload left b

      further :
          (b : Mbuf)
          → alloc i ≡ some b
          → (left - part left packet_buf_size == 0) ≡ false
          → (r : Bool × List Mbuf) × (fill alloc packet_buf_size payload_size payload fuel
                (suc i)
                (left - part left packet_buf_size)
              ≡ some r)
            × Filled (suc i) (left - part left packet_buf_size) r
          → (r : Bool × List Mbuf) × (fill alloc packet_buf_size payload_size payload
                (suc fuel)
                i
                left
              ≡ some r)
            × Filled i left r
      further b got more (r, e, whole ss c small) = (
        (true, seg b ∷ ss),
        rw (got, more, e, fill) refl,
        whole (seg b ∷ ss)
            (ap₂ ◌++◌
                (read-memcpy (part left packet_buf_size) 0 (payload_size - left) payload b.bytes) c
              ∙ read_parts left le)
            (part_bound left packet_buf_size, small),
      )
      further b got more (r, e, short ss gone) = (
        (false, seg b ∷ ss),
        rw (got, more, e, fill) refl,
        short (seg b ∷ ss) (ap alloc (omega arith) ∙ gone),
      )
