-- ===== src/Dpdkx/Config/Sockets/MainCore.antt =====
-- The main core is moved to the end of the cores of its socket.
use dpdk_tools.Common.{
  ℕ, suc, ◌+◌, ◌-◌, ◌≡◌, refl, sym, subst, ap, ap₂, ◌∙◌, ◌==◌, if◌then◌else◌, true, false,
  Bool-cases, ◌⊎◌, inl, inr, List, [], ◌∷◌, ◌++◌, append_assoc, length, length-append, get_elem?,
  set, some, arith,
}
use dpdk_tools.Common.Distinct.{Fresh, Distinct, Apart, Fresh-append, Distinct-append}
use dpdk_tools.Dpdkx.Config.Sockets.{find, swap, move_main}
use dpdk_tools.Dpdkx.Config.Sockets.Arranged.{MainLast, IsArranged}

pub Fresh-join : (c : ℕ) (xs ys : List ℕ) → Fresh c xs → Fresh c ys → Fresh c (xs ++ ys)
Fresh-join c [] ys h g = g
Fresh-join c (x ∷ xs) ys (ne, h) g = (ne, Fresh-join c xs ys h g)

pub Distinct-push : (xs : List ℕ) (c : ℕ) → Distinct xs → Fresh c xs → Distinct (xs ++ c ∷ [])
Distinct-push [] c h f = (tt, tt)
Distinct-push (x ∷ xs) c (g, h) (ne, f) =
    (Fresh-join x xs (c ∷ []) g (λ e. ne (sym e), tt), Distinct-push xs c h f)

MainLast-push :
    (main : ℕ) (init : List ℕ) (z : ℕ) → Fresh main init → MainLast main (init ++ z ∷ [])
MainLast-push main [] z f = tt
MainLast-push main (c ∷ []) z (ne, f) = (ne, tt)
MainLast-push main (c ∷ (d ∷ cs)) z (ne, f) = (ne, MainLast-push main (d ∷ cs) z f)

pub MainLast-Fresh : (main : ℕ) (cs : List ℕ) → Fresh main cs → MainLast main cs
MainLast-Fresh main [] f = tt
MainLast-Fresh main (c ∷ []) f = tt
MainLast-Fresh main (c ∷ (d ∷ cs)) (ne, f) = (ne, MainLast-Fresh main (d ∷ cs) f)

-- Two cores that change places.
Fresh-exchange :
    (c a b : ℕ) (xs ys : List ℕ)
    → Fresh c (xs ++ a ∷ (ys ++ b ∷ []))
    → Fresh c (xs ++ b ∷ (ys ++ a ∷ []))
Fresh-exchange c a b [] ys (ne, f) =
    let (g, (ne', n)) = Fresh-append c ys (b ∷ []) f in (ne', Fresh-join c ys (a ∷ []) g (ne, tt))
Fresh-exchange c a b (x ∷ xs) ys (ne, f) = (ne, Fresh-exchange c a b xs ys f)

Apart-push : (xs : List ℕ) (b : ℕ) → Apart xs (b ∷ []) → Fresh b xs
Apart-push xs b (f, t) = f

Distinct-exchange :
    (a b : ℕ) (xs ys : List ℕ)
    → Distinct (xs ++ a ∷ (ys ++ b ∷ []))
    → Distinct (xs ++ b ∷ (ys ++ a ∷ []))
Distinct-exchange a b [] ys (f, d) =
    let (g, (ne, n)) = Fresh-append a ys (b ∷ []) f in
    let (dys, db, ap_b) = Distinct-append ys (b ∷ []) d in
    (
      Fresh-join b ys (a ∷ []) (Apart-push ys b ap_b) (λ e. ne (sym e), tt),
      Distinct-push ys a dys g,
    )
Distinct-exchange a b (x ∷ xs) ys (f, d) =
    (Fresh-exchange x a b xs ys f, Distinct-exchange a b xs ys d)

get_middle : (xs : List ℕ) (c : ℕ) (ys : List ℕ) → get_elem? (xs ++ c ∷ ys) (length xs) ≡ some c
get_middle [] c ys = refl
get_middle (x ∷ xs) c ys = get_middle xs c ys

set_middle : (xs : List ℕ) (c v : ℕ) (ys : List ℕ) → set (xs ++ c ∷ ys) (length xs) v ≡ xs ++ v ∷ ys
set_middle [] c v ys = refl
set_middle (x ∷ xs) c v ys = ap (◌∷◌ x) (set_middle xs c v ys)

-- Where `std::find` stops.
abbrev index : ℕ → List ℕ → ℕ
index x [] = 0
index x (c ∷ cs) = if x == c then 0 else suc (index x cs)

find-index :
    (x : ℕ) (pre init rest : List ℕ)
    → find x (pre ++ (init ++ rest)) (length pre) (length init) ≡ length pre + index x init
unfolding find
find-index x pre [] rest = omega arith
find-index x pre (c ∷ cs) rest = elim (Bool-cases (x == c)) [
  | inl here ↦ rw (get_middle pre c (cs ++ rest), here) (omega arith)
  | inr on ↦
      rw (get_middle pre c (cs ++ rest), on)
        (ap₂ (λ l n. find x l n (length cs)) (sym (append_assoc pre (c ∷ []) (cs ++ rest)))
            (sym (length-append pre (c ∷ [])))
          ∙ find-index x (pre ++ c ∷ []) cs rest
          ∙ omega (arith, length-append pre (c ∷ [])))
]

-- The core is found, or it is none of them.
index-cases :
    (x : ℕ) (init : List ℕ)
    → ((xs : List ℕ) × (ys : List ℕ) × (init ≡ xs ++ x ∷ ys) × (index x init ≡ length xs))
      ⊎ (Fresh x init × (index x init ≡ length init))
index-cases x [] = inr (tt, refl)
index-cases x (c ∷ cs) = elim (Bool-cases (x == c)) [
  | inl here ↦ inl ([], cs, ap (λ d. d ∷ cs) (ground arith), rw here refl)
  | inr on ↦ elim (index-cases x cs) [
    | inl (xs, ys, e, n) ↦ inl (c ∷ xs, ys, ap (◌∷◌ c) e, rw on (ap suc n))
    | inr (f, n) ↦ inr ((λ e. ground arith, f), rw on (ap suc n))
  ]
]

get_later :
    (ps : List ℕ) (a : ℕ) (qs : List ℕ) (b : ℕ) (rs : List ℕ) (j : ℕ)
    → j ≡ length ps + suc (length qs)
    → get_elem? (ps ++ a ∷ (qs ++ b ∷ rs)) j ≡ some b
get_later ps a qs b rs j e =
    ap₂ get_elem? (sym (append_assoc ps (a ∷ qs) (b ∷ rs))) (e ∙ sym (length-append ps (a ∷ qs)))
    ∙ get_middle (ps ++ a ∷ qs) b rs

set_later :
    (ps : List ℕ) (a : ℕ) (qs : List ℕ) (b v : ℕ) (rs : List ℕ) (j : ℕ)
    → j ≡ length ps + suc (length qs)
    → set (ps ++ a ∷ (qs ++ b ∷ rs)) j v ≡ ps ++ a ∷ (qs ++ v ∷ rs)
set_later ps a qs b v rs j e =
    ap₂ (λ l n. set l n v) (sym (append_assoc ps (a ∷ qs) (b ∷ rs)))
      (e ∙ sym (length-append ps (a ∷ qs)))
    ∙ set_middle (ps ++ a ∷ qs) b v rs
    ∙ append_assoc ps (a ∷ qs) (v ∷ rs)

swap_exchange :
    (ps : List ℕ) (a : ℕ) (qs : List ℕ) (b : ℕ) (rs : List ℕ) (i j : ℕ)
    → i ≡ length ps
    → j ≡ length ps + suc (length qs)
    → swap i j (ps ++ a ∷ (qs ++ b ∷ rs)) ≡ ps ++ b ∷ (qs ++ a ∷ rs)
unfolding swap
swap_exchange ps a qs b rs i j at_i at_j =
    ap (λ k. swap k j (ps ++ a ∷ (qs ++ b ∷ rs))) at_i
    ∙ rw
        (
          get_middle ps a (qs ++ b ∷ rs),
          get_later ps a qs b rs j at_j,
          set_middle ps a b (qs ++ b ∷ rs),
          swap,
        )
        (set_later ps b qs b a rs j at_j)

suc-pred : (n : ℕ) → suc n - 1 ≡ n
suc-pred n = omega arith

-- The search and the test for the end of the group, at a group of `init` and one core more.
move_main-index :
    (main : ℕ) (pre init rest : List ℕ)
    → move_main main (length pre) (suc (length init)) (pre ++ (init ++ rest)) ≡ (
        if length pre + index main init == length pre + length init
        then pre ++ (init ++ rest)
        else swap (length pre + index main init) (length pre + length init) (pre ++ (init ++ rest)))
unfolding move_main
move_main-index main pre init rest =
    rw (suc-pred (length init), find-index main pre init rest, move_main) refl

same_end : (a b c : ℕ) → b ≡ c → (a + b == a + c) ≡ true
same_end a b c e = ground arith

other_end : (a b c k : ℕ) → c ≡ b + suc k → (a + b == a + c) ≡ false
other_end a b c k e = ground arith

exchange_in_place :
    (main : ℕ) (pre init : List ℕ) (z : ℕ) (post xs ys : List ℕ)
    → init ≡ xs ++ main ∷ ys
    → index main init ≡ length xs
    → length init ≡ length xs + suc (length ys)
    → swap (length pre + index main init) (length pre + length init) (pre ++ (init ++ z ∷ post))
      ≡ pre ++ ((xs ++ z ∷ (ys ++ main ∷ [])) ++ post)
exchange_in_place main pre init z post xs ys e n len =
    ap
      (λ l. swap (length pre + index main init) (length pre + length init) (pre ++ (l ++ z ∷ post)))
      e
    ∙ ap (swap (length pre + index main init) (length pre + length init)) (apart main (z ∷ post))
    ∙ swap_exchange (pre ++ xs) main ys z post _ _ (omega (arith, n, length-append pre xs))
        (omega (arith, len, length-append pre xs))
    ∙ simp (append_assoc)
  where
    apart :
        (c : ℕ) (rest : List ℕ) → pre ++ ((xs ++ c ∷ ys) ++ rest) ≡ (pre ++ xs) ++ c ∷ (ys ++ rest)
    apart c rest =
        ap (λ l. pre ++ l) (append_assoc xs (c ∷ ys) rest)
        ∙ sym (append_assoc pre xs (c ∷ (ys ++ rest)))

-- The main core goes to the end of its group, and nothing else moves but the core that was there.
pub move_main-IsArranged :
    (main : ℕ) (pre init : List ℕ) (z : ℕ) (post : List ℕ)
    → Distinct (init ++ z ∷ [])
    → (cs : List ℕ) × (move_main main (length pre) (suc (length init)) (pre ++ (init ++ z ∷ post))
        ≡ pre ++ (cs ++ post))
      × IsArranged main cs (suc (length init))
move_main-IsArranged main pre init z post d = elim (index-cases main init) [
  | inr (f, n) ↦ (
    init ++ z ∷ [],
    move_main-index main pre init (z ∷ post)
        ∙ rw (same_end (length pre) (index main init) (length init) n)
            (ap (λ l. pre ++ l) (sym (append_assoc init (z ∷ []) post))),
    (d, MainLast-push main init z f, omega (arith, length-append init (z ∷ []))),
  )
  | inl (xs, ys, e, n) ↦
      let len : length init ≡ length xs + suc (length ys) =
        ap length e ∙ length-append xs (main ∷ ys) in
      let d' = subst Distinct (ap (λ l. l ++ z ∷ []) e ∙ append_assoc xs (main ∷ ys) (z ∷ [])) d in
      let exchanged = Distinct-exchange main z xs ys d' in
      (
        xs ++ z ∷ (ys ++ main ∷ []),
        move_main-index main pre init (z ∷ post)
            ∙ rw
                (other_end (length pre) (index main init) (length init) (length ys)
                  (len ∙ ap (λ k. k + suc (length ys)) (sym n)))
                (exchange_in_place main pre init z post xs ys e n len),
        (
          exchanged,
          subst (MainLast main) (append_assoc xs (z ∷ ys) (main ∷ [])) (
              MainLast-push main (xs ++ z ∷ ys) main (
                Apart-push (xs ++ z ∷ ys) main
                  (Distinct-append (xs ++ z ∷ ys) (main ∷ [])
                    (subst Distinct (sym (append_assoc xs (z ∷ ys) (main ∷ []))) exchanged)).2)),
          omega
              (arith, len, length-append xs (z ∷ (ys ++ main ∷ [])), length-append ys (main ∷ [])),
        ),
      )
]
