-- ===== src/Common/ByteOrder.antt =====
-- Byte order: the swap of a word of `w` bytes, and the big-endian reading that it serves.
use native.Mathlib.Nat.{pow-suc}
use dpdk_tools.Common.Memory.{Memory, load, store, load-store_mod, store_out}
use Prim.Native.Nat.{ℕ, zero, suc, ◌+◌, ◌*◌, ◌/◌, ◌%◌, ◌^◌, ◌≤◌, ◌<◌}
use mathlib.Core.Path.{◌≡◌, refl, ap, ap₂, ◌∙◌, sym}
use mathlib.Core.Logic.{◌⊎◌, inl, inr}
use native.Mathlib.Omega.{arith}

-- `__builtin_bswapN`, `rte_bswapN`, `boost::endian::native_to_big` on a little-endian host.
unfoldable pub bswap : ℕ → ℕ → ℕ
bswap zero v = 0
bswap (suc w) v = v % 256 * 256 ^ w + bswap w (v / 256)

-- The number that the `w` bytes at `off` stand for in network order.
pub load_be : ℕ → ℕ → Memory → ℕ
load_be zero off m = 0
load_be (suc w) off m = m off * 256 ^ w + load_be w (suc off) m

pub bswap-lt : (w v : ℕ) → bswap w v < 256 ^ w
unfolding bswap
bswap-lt zero v = omega arith
bswap-lt (suc w) v = grind (arith, bswap-lt w (v / 256), pow-suc 256 w)

-- Swapping puts the most significant byte first.
bswap_top :
    (w x d : ℕ) → d < 256 → x < 256 ^ w → bswap (suc w) (x + 256 ^ w * d) ≡ d + 256 * bswap w x
unfolding bswap
bswap_top zero x d hd hx = omega arith
bswap_top (suc w) x d hd hx = omega (
  arith,
  pow-suc 256 w,
  next,
  bswap_top w (x / 256) d hd (omega (arith, pow-suc 256 w)),
  ap (λ (t : ℕ). t * 256 ^ suc w) low,
  low,
  ap (λ (t : ℕ). x % 256 * t) (pow-suc 256 w),
)
  where
    power : 256 ^ suc w * d ≡ 256 * (256 ^ w * d)
    power = omega (arith, ap (λ (t : ℕ). t * d) (pow-suc 256 w))

    shift : (x + 256 ^ suc w * d) / 256 ≡ x / 256 + 256 ^ w * d
    shift = omega (arith, power)

    low : (x + 256 ^ suc w * d) % 256 ≡ x % 256
    low = omega (arith, power)

    next : bswap (suc w) ((x + 256 ^ suc w * d) / 256) ≡ bswap (suc w) (x / 256 + 256 ^ w * d)
    next = ap (bswap (suc w)) shift

-- Swapping twice gives a word back.
pub bswap-bswap : (w v : ℕ) → v < 256 ^ w → bswap w (bswap w v) ≡ v
bswap-bswap zero v h = unfold bswap in omega arith
bswap-bswap (suc w) v h =
    ap (bswap (suc w)) split
    ∙ omega (
      arith,
      bswap_top w (bswap w (v / 256)) (v % 256) (omega arith) (bswap-lt w (v / 256)),
      bswap-bswap w (v / 256) (omega (arith, pow-suc 256 w)),
    )
  where
    split : bswap (suc w) v ≡ bswap w (v / 256) + 256 ^ w * (v % 256)
    split = unfold bswap in omega arith

bswap-load :
    (w off : ℕ) (m : Memory)
    → ((i : ℕ) → off ≤ i → i < off + w → m i < 256)
    → bswap w (load w off m) ≡ load_be w off m
unfolding bswap load load_be
bswap-load zero off m h = refl
bswap-load (suc w) off m h = omega (
  arith,
  ap (bswap w) rest,
  ap (λ (t : ℕ). t * 256 ^ w) low,
  bswap-load w (suc off) m (λ i p q. h i (omega arith) (omega arith)),
)
  where
    byte : m off < 256
    byte = h off (omega arith) (omega arith)

    rest : (m off + 256 * load w (suc off) m) / 256 ≡ load w (suc off) m
    rest = omega (arith, byte)

    low : (m off + 256 * load w (suc off) m) % 256 ≡ m off
    low = omega (arith, byte)

store_byte : (w off v : ℕ) (m : Memory) (i : ℕ) → off ≤ i → i < off + w → store w off v m i < 256
unfolding store
store_byte zero off v m i p q = absurd (omega arith)
store_byte (suc w) off v m i p q = ground (arith, store_byte w (suc off) (v / 256) m i)

load_be_congr :
    (w off : ℕ) (m n : Memory)
    → ((i : ℕ) → off ≤ i → i < off + w → m i ≡ n i)
    → load_be w off m ≡ load_be w off n
unfolding load_be
load_be_congr zero off m n h = refl
load_be_congr (suc w) off m n h =
    ap₂ (λ a b. a * 256 ^ w + b) (h off (omega arith) (omega arith))
      (load_be_congr w (suc off) m n (λ i p q. h i (omega arith) (omega arith)))

-- A read in network order that does not overlap a store does not see it.
pub load_be-store_apart :
    (w off w' off' v : ℕ) (m : Memory)
    → (off + w ≤ off') ⊎ (off' + w' ≤ off)
    → load_be w off (store w' off' v m) ≡ load_be w off m
load_be-store_apart w off w' off' v m (inl h) =
    load_be_congr w off _ m (λ i p q. store_out w' off' v m i (inl (omega arith)))
load_be-store_apart w off w' off' v m (inr h) =
    load_be_congr w off _ m (λ i p q. store_out w' off' v m i (inr (omega arith)))

-- What is stored swapped reads back in network order.
pub load_be-store :
    (w off v : ℕ) (m : Memory) → v < 256 ^ w → load_be w off (store w off (bswap w v) m) ≡ v
load_be-store w off v m h =
    sym (bswap-load w off _ (store_byte w off (bswap w v) m))
    ∙ ap (bswap w) (load-store_mod w off (bswap w v) m (bswap-lt w v))
    ∙ bswap-bswap w v h

-- What is stored swapped is loaded swapped.
pub bswap-load-store :
    (w off v : ℕ) (m : Memory) → v < 256 ^ w → bswap w (load w off (store w off (bswap w v) m)) ≡ v
bswap-load-store w off v m h =
    ap (bswap w) (load-store_mod w off (bswap w v) m (bswap-lt w v)) ∙ bswap-bswap w v h
