-- ===== src/Dpdkx/Device/RxJob/Frames.antt =====
-- The frames of a burst, when `update_l2size` has passed over them.
use dpdk_tools.Common.{ℕ, ◌+◌, ◌≤◌, ◌<◌, ◌≡◌, refl, List, [], ◌∷◌, some}
use dpdk_tools.Dpdkx.Proto.{ether_hdr}
use dpdk_tools.Dpdkx.Mbuf.{Mbuf}
use dpdk_tools.Dpdkx.Mbuf.L2.Laws.{Skipped, update_l2size_total}
use dpdk_tools.Dpdkx.Device.RxJob.{update_all}

-- A frame that holds an Ethernet header and is short enough for the bit-field of the header's length.
pub record IsFrame (l2_mod fuel : ℕ) (b : Mbuf) : Type 0 where
  pub whole : 14 ≤ b.data_len
  pub short : b.data_len + 4 < l2_mod
  pub enough : b.data_len < fuel

pub data AreFrames (l2_mod fuel : ℕ) : List Mbuf → Type 0 where
  nil : AreFrames l2_mod fuel []
  cons :
      {b : Mbuf} {bs : List Mbuf}
      → IsFrame l2_mod fuel b
      → AreFrames l2_mod fuel bs
      → AreFrames l2_mod fuel (b ∷ bs)

-- One packet for each, in order: the same bytes, with the header's length counted over the tags.
pub data AreSized : List Mbuf → List Mbuf → Type 0 where
  nil : AreSized [] []
  cons :
      {b b' : Mbuf} {bs bs' : List Mbuf} (proto : ℕ)
      → Skipped (record b { l2_len = ether_hdr }) proto b'
      → AreSized bs bs'
      → AreSized (b ∷ bs) (b' ∷ bs')

pub update_all_total :
    (l2_mod fuel : ℕ) (bs : List Mbuf)
    → AreFrames l2_mod fuel bs
    → (bs' : List Mbuf) × (update_all l2_mod fuel bs ≡ some bs') × AreSized bs bs'
unfolding update_all
update_all_total l2_mod fuel [] AreFrames.nil = ([], refl, AreSized.nil)
update_all_total l2_mod fuel (b ∷ bs) (AreFrames.cons f fs) =
    let (p, b', e, s) = update_l2size_total l2_mod fuel b f.whole f.short f.enough in
    let (bs', es, ss) = update_all_total l2_mod fuel bs fs in
    (b' ∷ bs', rw (e, update_all) (rw (es, update_all) refl), AreSized.cons p s ss)
