-- ===== src/Dpdkx/Described/Loading/Outcome.antt =====
-- What `load_value` makes of the options.
use native.Mathlib.Nat.{one-le-pow, mod-lt}
use dpdk_tools.Common.{ℕ, ◌%◌, ◌^◌, ◌<◌, ◌≡◌, refl, ◌≢◌, ◌⊎◌, inl, inr, Option, none, some, arith}
use dpdk_tools.Dpdkx.Config.Options.{Text, Value, empty_value, text, texts, unlike}
use dpdk_tools.Dpdkx.Described.{
  Leaf, unsigned, rx_offloads, tx_offloads, rx_meta_features, bitset, width, Described, leaf,
  struct, Members, end, member, ValueOf, ValuesOf, InRange, AllInRange, stored,
}
use dpdk_tools.Dpdkx.Described.Loading.{
  Load, loaded, unable_to_parse, invalid_argument, bad_any_cast, and_load, key_of, parse_failed,
  load_leaf, load_value, load_members,
}

-- A path below a described value, with the leaf that it leads to.
abbrev mutual
  pub HasLeaf : Text → Described → Text → Leaf → Type 0
  HasLeaf path (leaf l) p k = (p ≡ path) × (k ≡ l)
  HasLeaf path (struct ms) p k = MemberHasLeaf path ms p k

  pub MemberHasLeaf : Text → Members → Text → Leaf → Type 0
  MemberHasLeaf path end p k = ⊥
  MemberHasLeaf path (member name d ms) p k =
      HasLeaf (key_of path name) d p k ⊎ MemberHasLeaf path ms p k

stored-lt : (l : Leaf) (v : ℕ) → stored l v < 2 ^ width l
stored-lt l v = mod-lt v (one-le-pow (width l) 2 (omega arith))

module _ (options : Text → Value) (parse_value : Leaf → Text → Option ℕ) where
  -- What becomes of a leaf: without an option it stays, with one it is what the parser reads, cut to
  -- the width of the member.
  abbrev pub Reads : Leaf → Value → ℕ → ℕ → Type 0
  Reads l empty_value v w = w ≡ v
  Reads l (text t) v w = (n : ℕ) × (parse_value l t ≡ some n) × (w ≡ n % 2 ^ width l)
  Reads l other v w = ⊥

  abbrev mutual
    pub Follows : Text → (d : Described) → ValueOf d → ValueOf d → Type 0
    Follows path (leaf l) v w = Reads l (options path) v w
    Follows path (struct ms) v w = AllFollow path ms v w

    pub AllFollow : Text → (ms : Members) → ValuesOf ms → ValuesOf ms → Type 0
    AllFollow path end v w = Unit
    AllFollow path (member name d ms) (v, vs) (w, ws) =
        Follows (key_of path name) d v w × AllFollow path ms vs ws

  -- Whether an option has a text that its parser refuses, or is no text.
  abbrev pub Unreadable : Leaf → Value → Type 0
  Unreadable l (text t) = parse_value l t ≡ none
  Unreadable l other = ⊥

  abbrev pub IsNoText : Value → Type 0
  IsNoText (texts ts) = Unit
  IsNoText unlike = Unit
  IsNoText other = ⊥

  -- Each result of the loader: the loaded value, or an exception because of a leaf below.
  abbrev pub Outcome : {A : Type 0} → (A → Type 0) → (Text → Leaf → Type 0) → Load A → Type 0
  Outcome Good Below (loaded w) = Good w
  Outcome Good Below (unable_to_parse p) =
      (l : Leaf) × Below p l × Unreadable l (options p) × (l ≢ bitset)
  Outcome Good Below (invalid_argument p) = Below p bitset × Unreadable bitset (options p)
  Outcome Good Below (bad_any_cast p) = (l : Leaf) × Below p l × IsNoText (options p)

  load_text-Outcome :
      (l : Leaf) (path t : Text) (v : ℕ) (r : Option ℕ)
      → options path ≡ text t
      → parse_value l t ≡ r
      → Outcome
          (λ w. Reads l (text t) v w × (w < 2 ^ width l))
          (HasLeaf path (leaf l))
          (elim r [ none ↦ parse_failed l path | some n ↦ loaded (stored l n) ])
  load_text-Outcome l path t v (some n) e h = ((n, h, refl), stored-lt l n)
  load_text-Outcome bitset path t v none e h = ((refl, refl), rw e h)
  load_text-Outcome (unsigned bits) path t v none e h =
      (unsigned bits, (refl, refl), rw e h, ground arith)
  load_text-Outcome rx_offloads path t v none e h =
      (rx_offloads, (refl, refl), rw e h, ground arith)
  load_text-Outcome tx_offloads path t v none e h =
      (tx_offloads, (refl, refl), rw e h, ground arith)
  load_text-Outcome rx_meta_features path t v none e h =
      (rx_meta_features, (refl, refl), rw e h, ground arith)

  load_leaf-Outcome :
      (l : Leaf) (path : Text) (v : ℕ) (o : Value)
      → options path ≡ o
      → v < 2 ^ width l
      → Outcome
          (λ w. Reads l (options path) v w × (w < 2 ^ width l))
          (HasLeaf path (leaf l))
          (load_leaf options parse_value l path v)
  load_leaf-Outcome l path v empty_value e h = rw (load_leaf, e) (refl, h)
  load_leaf-Outcome l path v (text t) e h =
      rw (load_leaf, e) (load_text-Outcome l path t v (parse_value l t) e refl)
  load_leaf-Outcome l path v (texts ts) e h = rw (load_leaf, e) (l, (refl, refl), rw e tt)
  load_leaf-Outcome l path v unlike e h = rw (load_leaf, e) (l, (refl, refl), rw e tt)

  widen :
      {A B : Type 0} (GoodA : A → Type 0) (GoodB : B → Type 0) (P R : Text → Leaf → Type 0)
      (f : A → B) (r : Load A)
      → ((p : Text) (k : Leaf) → P p k → R p k)
      → ((a : A) → GoodA a → GoodB (f a))
      → Outcome GoodA P r
      → Outcome GoodB R (and_load r (λ a. loaded (f a)))
  widen GoodA GoodB P R f (loaded a) pr g h = g a h
  widen GoodA GoodB P R f (unable_to_parse p) pr g (l, b, u, n) = (l, pr p l b, u, n)
  widen GoodA GoodB P R f (invalid_argument p) pr g (b, u) = (pr p bitset b, u)
  widen GoodA GoodB P R f (bad_any_cast p) pr g (l, b, u) = (l, pr p l b, u)

  and_load-Outcome :
      {A B : Type 0} (GoodA : A → Type 0) (GoodB : B → Type 0) (P R : Text → Leaf → Type 0)
      (f : A → Load B) (r : Load A)
      → ((p : Text) (k : Leaf) → P p k → R p k)
      → Outcome GoodA P r
      → ((a : A) → GoodA a → Outcome GoodB R (f a))
      → Outcome GoodB R (and_load r f)
  and_load-Outcome GoodA GoodB P R f (loaded a) pr h g = g a h
  and_load-Outcome GoodA GoodB P R f (unable_to_parse p) pr (l, b, u, n) g = (l, pr p l b, u, n)
  and_load-Outcome GoodA GoodB P R f (invalid_argument p) pr (b, u) g = (pr p bitset b, u)
  and_load-Outcome GoodA GoodB P R f (bad_any_cast p) pr (l, b, u) g = (l, pr p l b, u)

  mutual
    unfolding load_value

    value_outcome :
        (path : Text) (d : Described) (v : ValueOf d)
        → InRange d v
        → Outcome
            (λ w. Follows path d v w × InRange d w)
            (HasLeaf path d)
            (load_value options parse_value path d v)
    value_outcome path (leaf l) v h = load_leaf-Outcome l path v (options path) refl h
    value_outcome path (struct ms) v h = members_outcome path ms v h

    members_outcome :
        (path : Text) (ms : Members) (v : ValuesOf ms)
        → AllInRange ms v
        → Outcome
            (λ w. AllFollow path ms v w × AllInRange ms w)
            (MemberHasLeaf path ms)
            (load_members options parse_value path ms v)
    members_outcome path end v h = (tt, tt)
    members_outcome path (member name d ms) (v, vs) (h, hs) =
        and_load-Outcome (λ w. Follows (key_of path name) d v w × InRange d w)
          (λ w. AllFollow path (member name d ms) (v, vs) w × AllInRange (member name d ms) w)
          (HasLeaf (key_of path name) d) (MemberHasLeaf path (member name d ms))
          (λ w. and_load (load_members options parse_value path ms vs) (λ ws. loaded (w, ws)))
          (load_value options parse_value (key_of path name) d v) (λ p k b. inl b)
          (value_outcome (key_of path name) d v h)
          (λ w (f, r).
            widen (λ ws. AllFollow path ms vs ws × AllInRange ms ws)
              (λ w. AllFollow path (member name d ms) (v, vs) w × AllInRange (member name d ms) w)
              (MemberHasLeaf path ms) (MemberHasLeaf path (member name d ms)) (λ ws. (w, ws))
              (load_members options parse_value path ms vs) (λ p k b. inr b)
              (λ ws (fs, rs). ((f, fs), (r, rs))) (members_outcome path ms vs hs))

-- `load_value` reads each leaf by its own path, keeps those without an option, and leaves each number
-- in the range of its member, where each was before. Otherwise it throws because of the text of an
-- option at the path of a leaf that the parser refuses, or because of an option that is no text.
pub load_value-Outcome :
    (options : Text → Value) (parse_value : Leaf → Text → Option ℕ) (path : Text) (d : Described)
    (v : ValueOf d)
    → InRange d v
    → Outcome options parse_value
        (λ w. Follows options parse_value path d v w × InRange d w)
        (HasLeaf path d)
        (load_value options parse_value path d v)
load_value-Outcome options parse_value path d v h = value_outcome options parse_value path d v h
