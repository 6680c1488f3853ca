-- ===== src/SockperfCli/TxJob/Leftover.antt =====
-- The packets that a burst leaves over.
use mathlib.Core.List.{Perm, perm_append_singleton}
use mathlib.Core.List.Perm
use dpdk_tools.Common.{
  ℕ, zero, suc, ◌+◌, ◌≤◌, ◌≡◌, refl, sym, ap, ap₂, subst, ◌∙◌, ◌==◌, if◌then◌else◌, true, false,
  arith, [], ◌∷◌, ◌++◌,
}
use dpdk_tools.SockperfCli.TxJob.{Buffers, move_up, window}

window_congr :
    (n i : ℕ) (b c : Buffers) → ((k : ℕ) → i ≤ k → b k ≡ c k) → window n i b ≡ window n i c
window_congr zero i b c h = refl
window_congr (suc n) i b c h =
    ap₂ ◌∷◌ (h i (omega arith)) (window_congr n (suc i) b c (λ k p. h k (omega arith)))

window_last : (n i : ℕ) (b : Buffers) → window (suc n) i b ≡ window n i b ++ b (i + n) ∷ []
window_last zero i b = ap (λ k. b k ∷ []) (omega arith)
window_last (suc n) i b =
    ap (◌∷◌ (b i))
      (window_last n (suc i) b ∙ ap (λ k. window n (suc i) b ++ b k ∷ []) (omega arith))

abbrev moved : ℕ → ℕ → Buffers → Buffers
moved offset j b i = if i == j then b (j + offset) else b i

-- A turn turns the window round.
window-moved :
    (offset j : ℕ) (b : Buffers)
    → Perm (window offset j (moved offset j b)) (window offset (suc j) b)
window-moved zero j b = Perm.refl []
window-moved (suc n) j b =
    subst (λ l. Perm (window (suc n) j (moved (suc n) j b)) l) (sym (window_last n (suc j) b))
      (subst (λ l. Perm l (window n (suc j) b ++ b (suc j + n) ∷ [])) (sym first)
        (Perm.symm (perm_append_singleton (b (suc j + n)) (window n (suc j) b))))
  where
    here : (j == j) ≡ true
    here = ground arith

    there : (k : ℕ) → suc j ≤ k → (k == j) ≡ false
    there k p = ground arith

    first : window (suc n) j (moved (suc n) j b) ≡ b (suc j + n) ∷ window n (suc j) b
    first =
        ap₂ ◌∷◌ (rw here (ap b (omega arith)))
          (window_congr n (suc j) (moved (suc n) j b) b (λ k p. rw (there k p) refl))

-- Whatever number of packets a burst sends, the ones it leaves over stand at the front of the vector
-- afterwards, each once, if not in their order.
pub move_up-Perm :
    (offset sent : ℕ) (b : Buffers)
    → Perm (window offset 0 (move_up offset sent b)) (window offset sent b)
unfolding move_up
move_up-Perm offset zero b = Perm.refl _
move_up-Perm offset (suc j) b =
    Perm.trans (move_up-Perm offset j (moved offset j b)) (window-moved offset j b)
