-- ===== src/Dpdkx/Described/Printing/Pretty.antt =====
-- The printing as a function of the value and its depth.
use Prim.Native.String.{String}
use dpdk_tools.Common.{
  ℕ, zero, suc, ◌+◌, ◌-◌, ◌%◌, ◌^◌, ◌≤◌, ◌≡◌, refl, sym, ap, ap₂, ◌∙◌, ltb, ◌==◌, if◌then◌else◌,
  true, false, Bool-cases, inl, inr, List, [], ◌∷◌, ◌++◌, append_assoc, drop, replicate, max, arith,
  append-nil,
}
use dpdk_tools.Dpdkx.Config.Options.{Text}
use dpdk_tools.Dpdkx.Described.{
  bytes, Leaf, unsigned, rx_offloads, tx_offloads, rx_meta_features, bitset, Described, leaf,
  struct, Members, end, member, ValueOf, ValuesOf,
}
use dpdk_tools.Dpdkx.Described.Tables.{names_of}
use dpdk_tools.Dpdkx.Described.Printing.{
  tab, newline, bits, Out, put, number, prefixes, put_flags, put_leaf, put_indent, print,
  print_members,
}

abbrev mutual
  pub depth : Described → ℕ
  depth (leaf l) = 0
  depth (struct ms) = suc (depth_members ms)

  pub depth_members : Members → ℕ
  depth_members end = 0
  depth_members (member name d ms) = max (depth d) (depth_members ms)

abbrev pub line : ℕ → Text
line n = newline ∷ replicate n tab

abbrev tabs : ℕ → Text
tabs n = replicate n tab

drop-tabs : (k n : ℕ) → drop k (tabs n) ≡ tabs (n - k)
drop-tabs zero n = ap tabs {x = n} (omega arith)
drop-tabs (suc k) zero = ap tabs {x = 0} (omega arith)
drop-tabs (suc k) (suc n) = drop-tabs k n ∙ ap tabs {x = n - k} (omega arith)

drop-prefixes : (k : ℕ) → drop k prefixes ≡ tabs (7 - k)
unfolding prefixes
drop-prefixes k = drop-tabs k 7

five_assoc :
    (t l n s p m : Text) → (((t ++ l) ++ (n ++ s)) ++ p) ++ m ≡ t ++ (l ++ (n ++ (s ++ (p ++ m))))
five_assoc t l n s p m = simp append_assoc

four_assoc : (t a b c d : Text) → (((t ++ a) ++ b) ++ c) ++ d ≡ t ++ (a ++ (b ++ (c ++ d)))
four_assoc t a b c d = simp append_assoc

module _ (flag_names : ℕ → List String → Text) where
  -- A number of 10 or more also in hexadecimal digits; flags in these, with their names.
  abbrev pub pretty_flags : Leaf → ℕ → Text
  pretty_flags l v =
      number true v ++ (if v == 0 then [] else bytes ":" ++ flag_names v (names_of l))

  abbrev pub pretty_leaf : Leaf → ℕ → Text
  pretty_leaf (unsigned w) v =
      number false (v % 2 ^ 32)
      ++ (if ltb v 10 then [] else bytes " (0x" ++ (number true (v % 2 ^ 32) ++ bytes ")"))
  pretty_leaf bitset v = bits 64 v
  pretty_leaf l v = pretty_flags l v

  abbrev mutual
    pub pretty : ℕ → (d : Described) → ValueOf d → Text
    pretty n (leaf l) v = pretty_leaf l v
    pretty n (struct ms) v = bytes "{" ++ (pretty_members (n + 1) ms v ++ (line n ++ bytes "}"))

    pub pretty_members : ℕ → (ms : Members) → ValuesOf ms → Text
    pretty_members n end v = []
    pretty_members n (member name d ms) (v, vs) =
        line n ++ (bytes name ++ (bytes " : " ++ (pretty n d v ++ pretty_members n ms vs)))

  -- What was written, with the prefix as it was.
  abbrev Wrote : Text → Out → Out → Type 0
  Wrote t out res = (res.text ≡ out.text ++ t) × (res.prefix ≡ out.prefix)

  flags-Wrote :
      (l : Leaf) (v : ℕ) (out : Out) → Wrote (pretty_flags l v) out (put_flags flag_names l v out)
  flags-Wrote l v out = elim (Bool-cases (v == 0)) [
    | inl none_set ↦ rw none_set (ap (λ t. out.text ++ t) (sym (append-nil _)), refl)
    | inr some_set ↦ rw some_set (append_assoc out.text _ _, refl)
  ]

  leaf-Wrote :
      (l : Leaf) (v : ℕ) (out : Out) → Wrote (pretty_leaf l v) out (put_leaf flag_names l v out)
  leaf-Wrote (unsigned w) v out = elim (Bool-cases (ltb v 10)) [
    | inl small ↦ rw small (ap (λ t. out.text ++ t) (sym (append-nil _)), refl)
    | inr large ↦ rw large (four_assoc out.text _ _ _ _, refl)
  ]
  leaf-Wrote bitset v out = (refl, refl)
  leaf-Wrote rx_offloads v out = flags-Wrote rx_offloads v out
  leaf-Wrote tx_offloads v out = flags-Wrote tx_offloads v out
  leaf-Wrote rx_meta_features v out = flags-Wrote rx_meta_features v out

  mutual
    unfolding print

    print-Wrote :
        (d : Described) (v : ValueOf d) (out : Out)
        → depth d ≤ out.prefix
        → out.prefix ≤ 7
        → Wrote (pretty (7 - out.prefix) d v) out (print flag_names d v out)
    print-Wrote (leaf l) v out deep top = leaf-Wrote l v out
    print-Wrote (struct ms) v out deep top =
        let inner : Out = put (bytes "{") (record out { prefix = out.prefix - 1 }) in
        let (t, p) = members-Wrote ms v inner (omega arith) (omega arith) in
        let up : 7 - (out.prefix - 1) ≡ 7 - out.prefix + 1 = omega arith in
        let back : (print_members flag_names ms v inner).prefix + 1 ≡ out.prefix =
          omega (arith, p) in
        elim (Bool-cases (out.prefix == 0)) [
          | inl bottom ↦ absurd (ground arith)
          | inr inside ↦ rw inside (
            ap₂ (λ s q. (s ++ (newline ∷ drop q prefixes)) ++ bytes "}") t back
                ∙ ap₂ (λ n i. ((inner.text ++ pretty_members n ms v) ++ (newline ∷ i)) ++ bytes "}")
                    up (drop-prefixes out.prefix)
                ∙ four_assoc out.text (bytes "{") _ _ _,
            back,
          )
        ]

    members-Wrote :
        (ms : Members) (v : ValuesOf ms) (out : Out)
        → depth_members ms ≤ out.prefix
        → out.prefix ≤ 7
        → Wrote (pretty_members (7 - out.prefix) ms v) out (print_members flag_names ms v out)
    members-Wrote end v out deep top = (sym (append-nil _), refl)
    members-Wrote (member name d ms) (v, vs) out deep top =
        let named : Out = put (bytes name ++ bytes " : ") (put_indent out) in
        let (t, p) = print-Wrote d v named (omega arith) top in
        let (u, q) =
          members-Wrote ms vs (print flag_names d v named) (omega (arith, p)) (omega (arith, p)) in
        (
          u
              ∙ ap₂ (λ s n. s ++ pretty_members (7 - n) ms vs) t p
              ∙ ap
                  (λ i.
                    (((out.text ++ (newline ∷ i)) ++ (bytes name ++ bytes " : "))
                      ++ pretty (7 - out.prefix) d v)
                    ++ pretty_members (7 - out.prefix) ms vs)
                  (drop-prefixes out.prefix)
              ∙ five_assoc out.text (line (7 - out.prefix)) (bytes name) (bytes " : ") _ _,
          q ∙ p,
        )

Out-path : (a b : Out) → a.text ≡ b.text → a.hex ≡ b.hex → a.prefix ≡ b.prefix → a ≡ b
Out-path a b t h p =
    ap (λ x. record a { text = x }) t
    ∙ ap₂ (λ x y. record { text = b.text; hex = x; prefix = y }) h p

-- Printing a struct of which no member is deeper than there are tabs writes it out as a function of
-- the value and the depth alone, elides nothing, and leaves the base of the stream and the prefix of
-- the thread as they were.
pub print-pretty :
    (flag_names : ℕ → List String → Text) (ms : Members) (v : ValuesOf ms) (out : Out)
    → depth (struct ms) ≤ out.prefix
    → out.prefix ≤ 7
    → print flag_names (struct ms) v out
      ≡ record out { text = out.text ++ pretty flag_names (7 - out.prefix) (struct ms) v }
unfolding print
print-pretty flag_names ms v out deep top =
    let (t, p) = print-Wrote flag_names (struct ms) v out deep top in
    Out-path (print flag_names (struct ms) v out) _ t base p
  where
    base : (print flag_names (struct ms) v out).hex ≡ out.hex
    base = elim (Bool-cases (out.prefix == 0)) [
      | inl bottom ↦ rw bottom refl
      | inr inside ↦ rw inside refl
    ]
