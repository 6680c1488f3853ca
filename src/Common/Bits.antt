-- ===== src/Common/Bits.antt =====
-- The native bit operations at variables: one digit at a time, and masks of every width.
use Prim.Native.Nat.{
  ℕ, zero, suc, ◌+◌, ◌-◌, ◌*◌, ◌/◌, ◌%◌, ◌^◌, ◌≤◌, ◌<◌, min, max, bit_and, bit_or, digits,
  bit_and-bitwise, bit_or-bitwise,
}
use mathlib.Core.Path.{◌≡◌, refl, sym, ap, ◌∙◌}
use native.Mathlib.Nat.{pow-suc, one-le-pow, mul_comm, div-add-mod, div-div-eq-div-mul}
use native.Mathlib.Omega.{arith}

-- What holds at 0, and at a number where it holds at its half, holds everywhere.
module _ {ℓ} (P : ℕ → Type ℓ) (base : P 0) (double : (a : ℕ) → P (suc a / 2) → P (suc a)) where
  halves_below : (n a : ℕ) → a ≤ n → P a
  halves_below n zero h = base
  halves_below zero (suc a) h = absurd (omega arith)
  halves_below (suc n) (suc a) h = double a (halves_below n (suc a / 2) (omega arith))

  by_halves : (a : ℕ) → P a
  by_halves a = halves_below a a (omega arith)

-- An operation on digits, which goes on with the second number where the first has run out.
module _ (z : ℕ → ℕ) (f : ℕ → ℕ → ℕ) (z_step : (b : ℕ) → z b ≡ z (b / 2) * 2 + f 0 (b % 2)) where
  digits-zero : (fuel b : ℕ) → digits z f fuel 0 b ≡ z b
  digits-zero zero b = refl
  digits-zero (suc fuel) b = refl

  -- Fuel beyond the first number is not used.
  surplus :
      (more : ℕ) (fuel a b : ℕ) → a ≤ fuel → digits z f (more + fuel) a b ≡ digits z f fuel a b
  surplus more fuel zero b h = digits-zero (more + fuel) b ∙ sym (digits-zero fuel b)
  surplus more zero (suc a) b h = absurd (omega arith)
  surplus more (suc fuel) (suc a) b h =
      let one_more : more + suc fuel ≡ suc (more + fuel) = omega arith in
      ap (λ k. digits z f k (suc a) b) one_more
      ∙ ap (λ high. high * 2 + f (suc a % 2) (b % 2))
          (surplus more fuel (suc a / 2) (b / 2) (omega arith))

  digits_step :
      (a b : ℕ) → digits z f a a b ≡ digits z f (a / 2) (a / 2) (b / 2) * 2 + f (a % 2) (b % 2)
  digits_step zero b = z_step b
  digits_step (suc a) b =
      let half = suc a / 2 in
      let enough : a ≡ a - half + half = omega arith in
      ap (λ high. high * 2 + f (suc a % 2) (b % 2))
        (ap (λ k. digits z f k half (b / 2)) enough
          ∙ surplus (a - half) half half (b / 2) (omega arith))

pub bit_and_step : (a b : ℕ) → bit_and a b ≡ bit_and (a / 2) (b / 2) * 2 + min (a % 2) (b % 2)
bit_and_step a b = omega (
  arith,
  bit_and-bitwise a b,
  bit_and-bitwise (a / 2) (b / 2),
  digits_step (λ b. zero) min (λ b. omega arith) a b,
)

pub bit_or_step : (a b : ℕ) → bit_or a b ≡ bit_or (a / 2) (b / 2) * 2 + max (a % 2) (b % 2)
bit_or_step a b = omega (
  arith,
  bit_or-bitwise a b,
  bit_or-bitwise (a / 2) (b / 2),
  digits_step (λ b. b) max (λ b. omega arith) a b,
)

pub bit_and-zero : (a : ℕ) → bit_and a 0 ≡ 0
bit_and-zero =
    by_halves (λ a. bit_and a 0 ≡ 0) refl (λ a h. omega (arith, bit_and_step (suc a) 0, h))

pub bit_or-zero : (a : ℕ) → bit_or a 0 ≡ a
bit_or-zero = by_halves (λ a. bit_or a 0 ≡ a) refl (λ a h. omega (arith, bit_or_step (suc a) 0, h))

div-pow_suc : (k a : ℕ) → a / 2 ^ suc k ≡ a / 2 / 2 ^ k
div-pow_suc k a = rw (pow-suc 2 k, mul_comm) (sym (div-div-eq-div-mul a 2 (2 ^ k)))

mod-pow_suc : (k a : ℕ) → a % 2 ^ suc k ≡ a / 2 % 2 ^ k * 2 + a % 2
mod-pow_suc k a = omega (
  arith,
  div-add-mod a (2 ^ suc k),
  div-add-mod (a / 2) (2 ^ k),
  ap (λ (t : ℕ). 2 ^ suc k * t) (div-pow_suc k a),
  ap (λ (t : ℕ). t * (a / 2 / 2 ^ k)) (pow-suc 2 k),
)

pow_pos : (k : ℕ) → 1 ≤ 2 ^ k
pow_pos k = one-le-pow k 2 (omega arith)

pub zero-bit_or : (a : ℕ) → bit_or 0 a ≡ a
zero-bit_or = by_halves (λ a. bit_or 0 a ≡ a) refl (λ a h. omega (arith, bit_or_step 0 (suc a), h))

-- A mask of `k` ones keeps the low `k` bits.
pub bit_and_mask : (k a : ℕ) → bit_and a (2 ^ k - 1) ≡ a % 2 ^ k
bit_and_mask zero a = bit_and-zero a ∙ omega arith
bit_and_mask (suc k) a = omega (
  arith,
  bit_and_step a (2 ^ suc k - 1),
  ap (bit_and (a / 2)) half,
  half,
  bit_and_mask k (a / 2),
  pow-suc 2 k,
  pow_pos k,
  mod-pow_suc k a,
)
  where
    half : (2 ^ suc k - 1) / 2 ≡ 2 ^ k - 1
    half = omega (arith, pow-suc 2 k, pow_pos k)

-- A single one reads one bit.
pub bit_and_pow : (k a : ℕ) → bit_and a (2 ^ k) ≡ a / 2 ^ k % 2 * 2 ^ k
bit_and_pow zero a = omega (arith, bit_and_step a 1, bit_and-zero (a / 2))
bit_and_pow (suc k) a = omega (
  arith,
  bit_and_step a (2 ^ suc k),
  ap (bit_and (a / 2)) half,
  bit_and_pow k (a / 2),
  pow-suc 2 k,
  ap (λ (t : ℕ). t % 2 * 2 ^ suc k) (div-pow_suc k a),
  ap (λ (t : ℕ). a / 2 / 2 ^ k % 2 * t) (pow-suc 2 k),
)
  where
    half : 2 ^ suc k / 2 ≡ 2 ^ k
    half = omega (arith, pow-suc 2 k)

-- Numbers with no bit in common are added.
pub bit_or_high : (k q n : ℕ) → n < 2 ^ k → bit_or (q * 2 ^ k) n ≡ q * 2 ^ k + n
bit_or_high zero q zero h = omega (arith, bit_or-zero (q * 2 ^ 0))
bit_or_high zero q (suc n) h = absurd (omega arith)
bit_or_high (suc k) q n h = omega (
  arith,
  bit_or_step (q * 2 ^ suc k) n,
  ap (λ (t : ℕ). bit_or t (n / 2)) half,
  ap (λ (t : ℕ). q * t) (pow-suc 2 k),
  bit_or_high k q (n / 2) (omega (arith, pow-suc 2 k)),
)
  where
    half : q * 2 ^ suc k / 2 ≡ q * 2 ^ k
    half = omega (arith, ap (λ (t : ℕ). q * t) (pow-suc 2 k))

-- Setting one bit.
pub bit_or_pow : (k n : ℕ) → bit_or n (2 ^ k) ≡ n + (1 - n / 2 ^ k % 2) * 2 ^ k
bit_or_pow zero n = omega (arith, bit_or_step n 1, bit_or-zero (n / 2))
bit_or_pow (suc k) n = omega (
  arith,
  bit_or_step n (2 ^ suc k),
  ap (bit_or (n / 2)) half,
  bit_or_pow k (n / 2),
  pow-suc 2 k,
  ap (λ (t : ℕ). (1 - t % 2) * 2 ^ suc k) (div-pow_suc k n),
  ap (λ (t : ℕ). (1 - n / 2 / 2 ^ k % 2) * t) (pow-suc 2 k),
)
  where
    half : 2 ^ suc k / 2 ≡ 2 ^ k
    half = omega (arith, pow-suc 2 k)
