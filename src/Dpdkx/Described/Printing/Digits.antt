-- ===== src/Dpdkx/Described/Printing/Digits.antt =====
-- The digits of a number, and their value.
use native.Mathlib.Nat.{pow-suc}
use dpdk_tools.Common.{
  ℕ, zero, suc, ◌+◌, ◌-◌, ◌*◌, ◌/◌, ◌%◌, ◌^◌, ◌<◌, ◌≡◌, refl, ap, ◌∙◌, ltb, leb, ◌&&◌,
  if◌then◌else◌, ◌>>=◌, Bool-cases, inl, inr, [], ◌∷◌, ◌++◌, Option, none, some, arith,
}
use dpdk_tools.Dpdkx.Config.Options.{Text}
use dpdk_tools.Dpdkx.Described.Printing.{digit, digits}

-- A number of decimal digits, read from the left.
abbrev pub decimal : Text → ℕ → Option ℕ
decimal [] n = some n
decimal (c ∷ cs) n = if leb 48 c && leb c 57 then decimal cs (n * 10 + (c - 48)) else none

decimal-append : (xs ys : Text) (n : ℕ) → decimal (xs ++ ys) n ≡ (decimal xs n >>= decimal ys)
decimal-append [] ys n = refl
decimal-append (c ∷ cs) ys n = elim (Bool-cases (leb 48 c && leb c 57)) [
  | inl is_digit ↦ rw is_digit (decimal-append cs ys (n * 10 + (c - 48)))
  | inr other ↦ rw other refl
]

last_digit : (m d : ℕ) → d < 10 → decimal (digit d ∷ []) m ≡ some (m * 10 + d)
last_digit m d h = ground arith

pub decimal-digits : (room n : ℕ) → n < 10 ^ room → decimal (digits 10 room n) 0 ≡ some n
decimal-digits zero n h = ap some (omega arith)
decimal-digits (suc room) n h = elim (Bool-cases (ltb n 10)) [
  | inl small ↦ rw small (last_digit 0 (n % 10) (omega arith) ∙ ap some (ground arith))
  | inr large ↦ rw large (
      decimal-append (digits 10 room (n / 10)) _ 0
      ∙ ap (λ r. r >>= decimal (digit (n % 10) ∷ []))
          (decimal-digits room (n / 10) (omega (arith, pow-suc 10 room)))
      ∙ last_digit (n / 10) (n % 10) (omega arith)
      ∙ ap some (omega arith))
]
