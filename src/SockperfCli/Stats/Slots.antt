-- ===== src/SockperfCli/Stats/Slots.antt =====
-- The slots of `statistics`: what is kept of the packets that were recorded.
use dpdk_tools.Common.{
  ℕ, zero, suc, ◌+◌, ◌-◌, ◌^◌, ◌<◌, ◌≡◌, refl, sym, ap, ◌∙◌, List, [], ◌∷◌, length, get_elem?, some,
  arith, min, ◌⊎◌,
}
use dpdk_tools.SockperfCli.Stats.{PacketInfo, Statistics, slot, record_packet, collected}

unfoldable pub record_all : List PacketInfo → Statistics → Statistics
unfolding record_packet
record_all [] s = s
record_all (p ∷ ps) s = record_all ps (record_packet p s)

record_all-next_slot :
    (ps : List PacketInfo) (s : Statistics) → (record_all ps s).next_slot ≡ s.next_slot + length ps
unfolding record_all record_packet
record_all-next_slot [] s = omega arith
record_all-next_slot (p ∷ ps) s = record_all-next_slot ps (record_packet p s) ∙ omega arith

record_all-slots : (ps : List PacketInfo) (s : Statistics) → (record_all ps s).slots ≡ s.slots
unfolding record_all record_packet
record_all-slots [] s = refl
record_all-slots (p ∷ ps) s = record_all-slots ps (record_packet p s)

-- A slot below both the next one and the last one keeps its packet.
record_all_kept :
    (ps : List PacketInfo) (s : Statistics) (i : ℕ)
    → s.slots < 2 ^ 64
    → i < s.next_slot
    → i + 1 < s.slots
    → (record_all ps s).memory i ≡ s.memory i
unfolding record_all record_packet slot
record_all_kept [] s i b h l = refl
record_all_kept (p ∷ ps) s i b h l =
    record_all_kept ps (record_packet p s) i b (omega arith) l ∙ ground arith

record_all-get_elem? :
    (ps : List PacketInfo) (s : Statistics) (i : ℕ)
    → 0 < s.slots
    → s.slots < 2 ^ 64
    → i < length ps
    → (s.next_slot + i + 1 < s.slots) ⊎ (i + 1 ≡ length ps)
    → get_elem? ps i ≡ some ((record_all ps s).memory (min (s.next_slot + i) (s.slots - 1)))
unfolding record_all record_packet
record_all-get_elem? [] s i pos b h c = absurd (omega arith)
record_all-get_elem? (p ∷ []) s zero pos b h c = ap some (unfold slot in ground arith)
record_all-get_elem? (p ∷ q ∷ ps) s zero pos b h c = ap some (
    sym (
      ap (record_all (q ∷ ps) (record_packet p s)).memory (omega arith)
      ∙ record_all_kept (q ∷ ps) (record_packet p s) s.next_slot b (omega arith) (ground arith)
      ∙ unfold slot in ground arith))
record_all-get_elem? (p ∷ ps) s (suc i) pos b h c =
    record_all-get_elem? ps (record_packet p s) i pos b (omega arith) (ground arith)
    ∙ ap (λ k. some ((record_all ps (record_packet p s)).memory k)) (omega arith)

-- Of the packets that were recorded, in whatever number, the slots hold all if they fit, else the
-- ones before the last slot, in order, and in the last slot the packet that came last; and as many
-- slots count as collected as are filled. There is at least one slot, and none was in use.
pub record_all-collected :
    (ps : List PacketInfo) (s : Statistics) (i : ℕ)
    → 0 < s.slots
    → s.slots < 2 ^ 64
    → s.next_slot ≡ 0
    → i < length ps
    → (i + 1 < s.slots) ⊎ (i + 1 ≡ length ps)
    → (get_elem? ps i ≡ some ((record_all ps s).memory (min i (s.slots - 1))))
      × (collected (record_all ps s) ≡ min (length ps) s.slots)
      × (min i (s.slots - 1) < collected (record_all ps s))
unfolding collected
record_all-collected ps s i pos b new h c = (
  record_all-get_elem? ps s i pos b h (ground arith)
      ∙ ap (λ k. some ((record_all ps s).memory k)) (omega arith),
  omega (arith, record_all-next_slot ps s, record_all-slots ps s),
  ground (arith, record_all-next_slot ps s, record_all-slots ps s),
)
