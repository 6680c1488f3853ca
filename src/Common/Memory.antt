-- ===== src/Common/Memory.antt =====
-- The bytes behind a pointer: loads and stores of little-endian words, as x86-64 makes them.
use native.Mathlib.Nat.{pow-suc}
use Prim.Native.Nat.{ℕ, zero, suc, ◌+◌, ◌*◌, ◌/◌, ◌%◌, ◌^◌, ◌≤◌, ◌<◌}
use mathlib.Core.Path.{◌≡◌, refl, ap₂}
use mathlib.Core.Logic.{◌⊎◌, inl, inr}
use native.Mathlib.Omega.{arith}
use dpdk_tools.Common.Tests.{◌==◌, if◌then◌else◌}

-- A byte at each offset.
abbrev pub Memory : Type 0
Memory = ℕ → ℕ

-- `*(uintN_t*)(p + off)`, for a word of `w` bytes.
unfoldable pub load : ℕ → ℕ → Memory → ℕ
load zero off m = 0
load (suc w) off m = m off + 256 * load w (suc off) m

-- `*(uintN_t*)(p + off) = v`.
unfoldable pub store : ℕ → ℕ → ℕ → Memory → Memory
store zero off v m i = m i
store (suc w) off v m i = if i == off then v % 256 else store w (suc off) (v / 256) m i

pub store_out :
    (w off v : ℕ) (m : Memory) (i : ℕ) → (i < off) ⊎ (off + w ≤ i) → store w off v m i ≡ m i
unfolding store
store_out zero off v m i h = refl
store_out (suc w) off v m i h = ground (arith, store_out w (suc off) (v / 256) m i)

pub load_congr :
    (w off : ℕ) (m n : Memory)
    → ((i : ℕ) → off ≤ i → i < off + w → m i ≡ n i)
    → load w off m ≡ load w off n
unfolding load
load_congr zero off m n h = refl
load_congr (suc w) off m n h =
    ap₂ (λ a b. a + 256 * b) (h off (omega arith) (omega arith))
      (load_congr w (suc off) m n (λ i p q. h i (omega arith) (omega arith)))

-- A load that does not overlap a store does not see it.
pub load-store_apart :
    (w off w' off' v : ℕ) (m : Memory)
    → (off + w ≤ off') ⊎ (off' + w' ≤ off)
    → load w off (store w' off' v m) ≡ load w off m
load-store_apart w off w' off' v m (inl h) =
    load_congr w off _ m (λ i p q. store_out w' off' v m i (inl (omega arith)))
load-store_apart w off w' off' v m (inr h) =
    load_congr w off _ m (λ i p q. store_out w' off' v m i (inr (omega arith)))

store_tail :
    (w off v : ℕ) (m : Memory) (i : ℕ)
    → suc off ≤ i
    → store (suc w) off v m i ≡ store w (suc off) (v / 256) m i
unfolding store
store_tail w off v m i h = ground arith

-- A load of what was stored there gives the value, where the value fits the word.
pub load-store_mod : (w off v : ℕ) (m : Memory) → v < 256 ^ w → load w off (store w off v m) ≡ v
unfolding load
load-store_mod zero off v m h = omega arith
load-store_mod (suc w) off v m h = omega (
  arith,
  head,
  load_congr w (suc off) (store (suc w) off v m) (store w (suc off) (v / 256) m)
      (λ i p q. store_tail w off v m i p),
  load-store_mod w (suc off) (v / 256) m (omega (arith, pow-suc 256 w)),
)
  where
    head : store (suc w) off v m off ≡ v % 256
    head = unfold store in ground arith
