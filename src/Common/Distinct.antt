-- ===== src/Common/Distinct.antt =====
-- Lists no two elements of which are the same.
use Prim.Native.Nat.{ℕ, zero, suc}
use mathlib.Core.Path.{sym}
use mathlib.Core.Logic.{◌≢◌}
use mathlib.Core.List.{List, [], ◌∷◌, ◌++◌}
use dpdk_tools.Common.Lists.{take}

module _ {A : Type 0} where
  -- An element that is none of the others; elements no two of which are the same.
  abbrev pub Fresh : A → List A → Type 0
  Fresh c [] = Unit
  Fresh c (d ∷ ds) = (c ≢ d) × Fresh c ds

  abbrev pub Distinct : List A → Type 0
  Distinct [] = Unit
  Distinct (c ∷ cs) = Fresh c cs × Distinct cs

  -- No element of the second list is one of the first.
  abbrev pub Apart : List A → List A → Type 0
  Apart xs [] = Unit
  Apart xs (d ∷ ds) = Fresh d xs × Apart xs ds

  pub Fresh-append : (c : A) (xs ys : List A) → Fresh c (xs ++ ys) → Fresh c xs × Fresh c ys
  Fresh-append c [] ys h = (tt, h)
  Fresh-append c (x ∷ xs) ys (ne, h) = let (l, r) = Fresh-append c xs ys h in ((ne, l), r)

  Apart-cons : (x : A) (xs ys : List A) → Fresh x ys → Apart xs ys → Apart (x ∷ xs) ys
  Apart-cons x xs [] f h = tt
  Apart-cons x xs (y ∷ ys) (ne, f) (g, h) = ((λ e. ne (sym e), g), Apart-cons x xs ys f h)

  pub Apart-nil : (ys : List A) → Apart [] ys
  Apart-nil [] = tt
  Apart-nil (y ∷ ys) = (tt, Apart-nil ys)

  pub Distinct-append :
      (xs ys : List A) → Distinct (xs ++ ys) → Distinct xs × Distinct ys × Apart xs ys
  Distinct-append [] ys h = (tt, h, Apart-nil ys)
  Distinct-append (x ∷ xs) ys (f, h) =
      let (l, r) = Fresh-append x xs ys f in
      let (a, b, c) = Distinct-append xs ys h in ((l, a), b, Apart-cons x xs ys r c)

  pub Fresh-take : (c : A) (n : ℕ) (cs : List A) → Fresh c cs → Fresh c (take n cs)
  Fresh-take c zero cs h = tt
  Fresh-take c (suc n) [] h = tt
  Fresh-take c (suc n) (d ∷ ds) (ne, h) = (ne, Fresh-take c n ds h)

  pub Distinct-take : (n : ℕ) (cs : List A) → Distinct cs → Distinct (take n cs)
  Distinct-take zero cs h = tt
  Distinct-take (suc n) [] h = tt
  Distinct-take (suc n) (c ∷ cs) (f, h) = (Fresh-take c n cs f, Distinct-take n cs h)
