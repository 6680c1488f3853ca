-- ===== src/Dpdkx/Mbuf/L2/Laws.antt =====
-- What `update_l2size` returns, and on which packets it does not return.
use dpdk_tools.Common.{
  ℕ, zero, suc, ◌+◌, ◌*◌, ◌%◌, ◌≤◌, ◌<◌, ◌≡◌, refl, ap, ltb, true, false, inl, inr, none, some,
  arith, Bool-cases, ltb→lt,
}
use native.Mathlib.Nat.{mod-eq_of_lt}
use dpdk_tools.Common.Memory.{load}
use dpdk_tools.Dpdkx.Proto.{ether_hdr}
use dpdk_tools.Dpdkx.Mbuf.{Mbuf}
use dpdk_tools.Dpdkx.Mbuf.L2.{eth_proto, is_tag, skip_tags, update_l2size}

-- A result of the loop: either the tags run past the data, and the answer is 0, or the header ends
-- within the data, and the answer is the protocol that its last two bytes name, which is no tag.
pub data Parsed (b : Mbuf) (proto : ℕ) (b' : Mbuf) : Type 0 where
  truncated : b.data_len < b'.l2_len → proto ≡ 0 → Parsed b proto b'
  parsed : b'.l2_len ≤ b.data_len → proto ≡ eth_proto b' → is_tag proto ≡ false → Parsed b proto b'

-- The header that was skipped: what the buffer holds is not changed, and the tags are 4 bytes each.
pub record Skipped (b : Mbuf) (proto : ℕ) (b' : Mbuf) : Type 0 where
  pub result : Parsed b proto b'
  pub tags : ℕ
  pub header : b'.l2_len ≡ b.l2_len + 4 * tags
  pub bytes_kept : b'.bytes ≡ b.bytes
  pub data_len_kept : b'.data_len ≡ b.data_len

Parsed-l2 : (b : Mbuf) (n p : ℕ) (c : Mbuf) → Parsed (record b { l2_len = n }) p c → Parsed b p c
Parsed-l2 b n p c (truncated h e) = truncated h e
Parsed-l2 b n p c (parsed h e f) = parsed h e f

Skipped-tag :
    (b : Mbuf) {n : ℕ} (p : ℕ) (c : Mbuf)
    → Skipped (record b { l2_len = n }) p c
    → n ≡ b.l2_len + 4
    → Skipped b p c
Skipped-tag b {n} p c s e = record {
  result = Parsed-l2 b n p c s.result;
  tags = s.tags + 1;
  header = omega (arith, s.header);
  bytes_kept = s.bytes_kept;
  data_len_kept = s.data_len_kept;
}

module _ (l2_mod : ℕ) where
  skip_tags_total :
      (fuel proto : ℕ) (b : Mbuf)
      → b.data_len + 4 < l2_mod
      → b.l2_len ≤ b.data_len
      → 2 ≤ b.l2_len
      → b.data_len < b.l2_len + fuel
      → proto ≡ eth_proto b
      → (p : ℕ) × (b' : Mbuf) × (skip_tags l2_mod fuel proto b ≡ some (p, b')) × Skipped b p b'
  unfolding skip_tags
  skip_tags_total zero proto b room fits low enough here = absurd (omega arith)
  skip_tags_total (suc fuel) proto b room fits low enough here = elim (Bool-cases (is_tag proto)) [
    | inl tag ↦ elim (Bool-cases (ltb b.data_len ((b.l2_len + 4) % l2_mod))) [
      | inl over ↦ (
        0,
        b',
        rw (tag, skip_tags) (rw (over, skip_tags) refl),
        record {
          result = truncated (ltb→lt _ _ over) refl;
          tags = 1;
          header = omega (arith, next);
          bytes_kept = refl;
          data_len_kept = refl;
        },
      )
      | inr within ↦
          let (p, c, e, s) =
            skip_tags_total fuel (load 2 (b.l2_len + 2) b.bytes) b' room (ground arith)
              (omega (arith, next)) (omega (arith, next)) reread in
          (p, c, rw (tag, skip_tags) (rw (within, skip_tags) e), Skipped-tag b p c s next)
    ]
    | inr plain ↦ (
      proto,
      b,
      rw (plain, skip_tags) refl,
      record {
        result = parsed fits here plain;
        tags = 0;
        header = omega arith;
        bytes_kept = refl;
        data_len_kept = refl;
      },
    )
  ]
    where
      b' : Mbuf
      b' = record b { l2_len = (b.l2_len + 4) % l2_mod }

      next : (b.l2_len + 4) % l2_mod ≡ b.l2_len + 4
      next = mod-eq_of_lt (omega arith)

      reread : load 2 (b.l2_len + 2) b.bytes ≡ eth_proto b'
      reread = unfold eth_proto in ap (λ t. load 2 t b.bytes) (omega (arith, next))

  pub update_l2size_total :
      (fuel : ℕ) (b : Mbuf)
      → 14 ≤ b.data_len
      → b.data_len + 4 < l2_mod
      → b.data_len < fuel
      → (p : ℕ) × (b' : Mbuf) × (update_l2size l2_mod fuel b ≡ some (p, b'))
        × Skipped (record b { l2_len = ether_hdr }) p b'
  unfolding update_l2size
  update_l2size_total fuel b h room enough =
      let (p, c, e, s) =
        skip_tags_total fuel (load 2 12 b.bytes) (record b { l2_len = ether_hdr }) room h
          (omega arith) (omega arith) (unfold eth_proto in refl) in
      (p, c, rw (short, update_l2size) e, s)
    where
      short : ltb b.data_len ether_hdr ≡ false
      short = ground arith

-- Every fourth byte of the frame begins a tag.
abbrev pub IsTagged : Mbuf → Type 0
IsTagged b = (i : ℕ) → i < 132 → i % 4 ≡ 0 → is_tag (load 2 i b.bytes) ≡ true

skip_tags_stuck :
    (fuel proto : ℕ) (b : Mbuf)
    → IsTagged b
    → 128 ≤ b.data_len
    → b.l2_len < 128
    → b.l2_len % 4 ≡ 2
    → is_tag proto ≡ true
    → skip_tags 128 fuel proto b ≡ none
unfolding skip_tags
skip_tags_stuck zero proto b tagged long low at tag = refl
skip_tags_stuck (suc fuel) proto b tagged long low at tag =
    rw (tag, skip_tags)
      (rw (within, skip_tags)
        (skip_tags_stuck fuel (load 2 (b.l2_len + 2) b.bytes)
          (record b { l2_len = (b.l2_len + 4) % 128 }) tagged long (omega arith) (omega arith)
          (tagged (b.l2_len + 2) (omega arith) (omega arith))))
  where
    within : ltb b.data_len ((b.l2_len + 4) % 128) ≡ false
    within = ground arith

-- With a bit-field of 7 bits, a frame of 128 bytes or more that has a tag at every fourth byte keeps
-- the loop running: no fuel suffices, so `update_l2size` does not return on it.
update_l2size_stuck :
    (b : Mbuf) → IsTagged b → 128 ≤ b.data_len → (fuel : ℕ) → update_l2size 128 fuel b ≡ none
unfolding update_l2size
update_l2size_stuck b tagged long fuel =
    rw (short, update_l2size)
      (skip_tags_stuck fuel (load 2 12 b.bytes) (record b { l2_len = ether_hdr }) tagged long
        (omega arith) (omega arith) (tagged 12 (omega arith) (omega arith)))
  where
    short : ltb b.data_len ether_hdr ≡ false
    short = ground arith
