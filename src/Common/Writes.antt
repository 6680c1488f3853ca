-- ===== src/Common/Writes.antt =====
-- Fields written one after the other, and what a load sees of them: at known offsets the question is
-- settled by evaluation.
use Prim.Native.Nat.{ℕ, ◌+◌, ◌^◌, ◌≤◌, ◌<◌, max}
use mathlib.Core.Path.{◌≡◌, refl, ◌∙◌, subst}
use mathlib.Core.Logic.{◌⊎◌, inr}
use mathlib.Core.Bool.{Bool, true, false, ◌&&◌, ◌||◌}
use mathlib.Core.List.{List, [], ◌∷◌}
use native.Mathlib.Omega.{arith}
use dpdk_tools.Common.Tests.{leb, ◌==◌, if◌then◌else◌}
use dpdk_tools.Common.Memory.{Memory, load, store, load-store_apart, load-store_mod, store_out}

-- The width in bytes, the offset and the value of each field, in the order of the assignments.
abbrev pub Writes : Type 0
Writes = List (ℕ × ℕ × ℕ)

unfoldable pub write_all : Writes → Memory → Memory
write_all [] m = m
write_all ((w, off, v) ∷ ws) m = write_all ws (store w off v m)

-- What is known of a field: it was not touched, it was given a value, or a part of it was written.
pub data Seen : Type 0 where
  untouched : Seen
  value : ℕ → Seen
  unknown : Seen

abbrev see : ℕ → ℕ → ℕ × ℕ × ℕ → Seen → Seen
see w off (w', off', v) s =
    if w == w' && off == off'
    then value v
    else if leb (off + w) off' || leb (off' + w') off
    then s
    else unknown

abbrev pub seen : ℕ → ℕ → Seen → Writes → Seen
seen w off s [] = s
seen w off s (x ∷ ws) = seen w off (see w off x s) ws

abbrev Agrees : ℕ → ℕ → Memory → Seen → Memory → Type 0
Agrees w off m₀ untouched m = load w off m ≡ load w off m₀
Agrees w off m₀ (value v) m = v < 256 ^ w → load w off m ≡ v
Agrees w off m₀ unknown m = Unit

Agrees-apart :
    (w off w' off' v : ℕ) (m₀ m : Memory) (s : Seen)
    → (off + w ≤ off') ⊎ (off' + w' ≤ off)
    → Agrees w off m₀ s m
    → Agrees w off m₀ s (store w' off' v m)
Agrees-apart w off w' off' v m₀ m untouched d a = load-store_apart w off w' off' v m d ∙ a
Agrees-apart w off w' off' v m₀ m (value u) d a = λ lt. load-store_apart w off w' off' v m d ∙ a lt
Agrees-apart w off w' off' v m₀ m unknown d a = tt

Agrees-store :
    (w off w' off' v : ℕ) (m₀ m : Memory) (s : Seen)
    → Agrees w off m₀ s m
    → Agrees w off m₀ (see w off (w', off', v) s) (store w' off' v m)
Agrees-store w off w' off' v m₀ m s a =
    by_tests (w == w' && off == off') (leb (off + w) off' || leb (off' + w') off)
      (λ h. ground arith) (λ h. ground arith)
  where
    by_tests :
        (t u : Bool)
        → (t ≡ true → (w ≡ w') × (off ≡ off'))
        → (u ≡ true → (off + w ≤ off') ⊎ (off' + w' ≤ off))
        → Agrees w off m₀ (if t then value v else if u then s else unknown) (store w' off' v m)
    by_tests true u same apart =
        let (ew, eo) = same refl in
        λ lt.
          subst (λ k. load w off (store k off' v m) ≡ v) ew
            (subst (λ k. load w off (store w k v m) ≡ v) eo (load-store_mod w off v m lt))
    by_tests false true same apart = Agrees-apart w off w' off' v m₀ m s (apart refl) a
    by_tests false false same apart = tt

Agrees-write_all :
    (w off : ℕ) (m₀ : Memory) (ws : Writes) (m : Memory) (s : Seen)
    → Agrees w off m₀ s m
    → Agrees w off m₀ (seen w off s ws) (write_all ws m)
unfolding write_all
Agrees-write_all w off m₀ [] m s a = a
Agrees-write_all w off m₀ ((w', off', v) ∷ ws) m s a =
    Agrees-write_all w off m₀ ws (store w' off' v m) (see w off (w', off', v) s)
      (Agrees-store w off w' off' v m₀ m s a)

-- A field that was given a value which fits it holds that value.
pub load-write_all :
    (w off v : ℕ) (ws : Writes) (m : Memory)
    → seen w off untouched ws ≡ value v
    → v < 256 ^ w
    → load w off (write_all ws m) ≡ v
load-write_all w off v ws m e =
    subst (λ s. Agrees w off m s (write_all ws m)) e (Agrees-write_all w off m ws m untouched refl)

-- A field that was not touched holds what it held.
pub load-write_all_untouched :
    (w off : ℕ) (ws : Writes) (m : Memory)
    → seen w off untouched ws ≡ untouched
    → load w off (write_all ws m) ≡ load w off m
load-write_all_untouched w off ws m e =
    subst (λ s. Agrees w off m s (write_all ws m)) e (Agrees-write_all w off m ws m untouched refl)

-- Every field ends at or before an offset.
abbrev pub EndBefore : ℕ → Writes → Type 0
EndBefore i [] = Unit
EndBefore i ((w, off, v) ∷ ws) = (off + w ≤ i) × EndBefore i ws

pub write_all_past : (i : ℕ) (ws : Writes) (m : Memory) → EndBefore i ws → write_all ws m i ≡ m i
unfolding write_all
write_all_past i [] m h = refl
write_all_past i ((w, off, v) ∷ ws) m (h, hs) =
    write_all_past i ws (store w off v m) hs ∙ store_out w off v m i (inr h)

-- Where the last field ends.
abbrev pub end_of : Writes → ℕ
end_of [] = 0
end_of ((w, off, v) ∷ ws) = max (off + w) (end_of ws)

EndBefore-end_of : (i : ℕ) (ws : Writes) → end_of ws ≤ i → EndBefore i ws
EndBefore-end_of i [] h = tt
EndBefore-end_of i ((w, off, v) ∷ ws) h = (omega arith, EndBefore-end_of i ws (omega arith))

pub write_all_end : (i : ℕ) (ws : Writes) (m : Memory) → end_of ws ≤ i → write_all ws m i ≡ m i
write_all_end i ws m h = write_all_past i ws m (EndBefore-end_of i ws h)
