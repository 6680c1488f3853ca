-- ===== src/Dpdkx/Described/Loading/Keys.antt =====
-- The keys of the options that spell a value out: none of them twice.
use Prim.Native.String.{String}
use dpdk_tools.Common.{
  ℕ, suc, ◌≡◌, ◌≢◌, refl, sym, ap, ◌∙◌, ◌==◌, ◌&&◌, Bool, true, false, not, [], ◌∷◌, ◌++◌,
  append-nil, append_assoc, length, drop, if◌then◌else◌, arith,
}
use dpdk_tools.Dpdkx.Config.Options.{Text, equal}
use dpdk_tools.Dpdkx.Described.{
  bytes, Leaf, Described, leaf, struct, Members, end, member, ValueOf, ValuesOf,
}
use dpdk_tools.Dpdkx.Described.Loading.{dot, key_of}
use dpdk_tools.Dpdkx.Config.Options.Equality.{equal_refl}
use dpdk_tools.Dpdkx.Described.Loading.Settings.{
  has_dot, has_name, well_named, all_well_named, settings, member_settings, All, Once, All-append,
  All-map, Once-append,
}

-- Below a path, the first name of a key.
abbrev upto_dot : Text → Text
upto_dot [] = []
upto_dot (c ∷ cs) = if c == dot then [] else c ∷ upto_dot cs

abbrev first_name : Text → Text → Text
first_name path key = upto_dot (drop (suc (length path)) key)

-- A key at a path or below it.
abbrev Under : Text → Text → Type 0
Under path key = (rest : Text) × (key ≡ path ++ rest) × (upto_dot rest ≡ [])

upto_dot-append :
    (name rest : Text) → has_dot name ≡ false → upto_dot rest ≡ [] → upto_dot (name ++ rest) ≡ name
upto_dot-append [] rest h e = e
upto_dot-append (c ∷ cs) rest h e = ground (arith, upto_dot-append cs rest)

drop-key_of :
    (path name rest : Text)
    → drop (suc (length path)) ((path ++ (dot ∷ name)) ++ rest) ≡ name ++ rest
drop-key_of [] name rest = refl
drop-key_of (c ∷ path) name rest = drop-key_of path name rest

first_name-Under :
    (path key : Text) (name : String)
    → has_dot (bytes name) ≡ false
    → Under (key_of path name) key
    → first_name path key ≡ bytes name
first_name-Under path key name h (rest, e, r) =
    ap (first_name path) e
    ∙ ap upto_dot (drop-key_of path (bytes name) rest)
    ∙ upto_dot-append (bytes name) rest h r

deeper : (path key : Text) (name : String) → Under (key_of path name) key → Under path key
deeper path key name (rest, e, r) =
    (dot ∷ (bytes name ++ rest), e ∙ append_assoc path (dot ∷ bytes name) rest, refl)

and_true : (a b : Bool) → (a && b) ≡ true → (a ≡ true) × (b ≡ true)
and_true a b h = ground arith

false_of_not : (a : Bool) → not a ≡ true → a ≡ false
false_of_not a h = ground arith

true_and_false : (a : Bool) → a ≡ false → a ≡ true → ⊥
true_and_false a h g = ground arith

if_true : (a b : Bool) → b ≡ true → (if a then true else b) ≡ true
if_true a b h = ground arith

module _ (spell : Leaf → ℕ → Text) where
  mutual
    settings-Under :
        (path : Text) (d : Described) (v : ValueOf d) → All (Under path) (settings spell path d v)
    settings-Under path (leaf l) v = (([], sym (append-nil path), refl), tt)
    settings-Under path (struct ms) v = members-Under path ms v

    members-Under :
        (path : Text) (ms : Members) (v : ValuesOf ms)
        → All (Under path) (member_settings spell path ms v)
    members-Under path end v = tt
    members-Under path (member name d ms) (v, vs) =
        All-append (Under path) (settings spell (key_of path name) d v)
          (member_settings spell path ms vs)
          (All-map (Under (key_of path name)) (Under path) (settings spell (key_of path name) d v)
            (λ k. deeper path k name) (settings-Under (key_of path name) d v))
          (members-Under path ms vs)

  named_here :
      (path : Text) (name : String) (d : Described) (v : ValueOf d)
      → has_dot (bytes name) ≡ false
      → All (λ k. first_name path k ≡ bytes name) (settings spell (key_of path name) d v)
  named_here path name d v h =
      All-map (Under (key_of path name)) (λ k. first_name path k ≡ bytes name)
        (settings spell (key_of path name) d v) (λ k u. first_name-Under path k name h u)
        (settings-Under (key_of path name) d v)

  members-named :
      (path : Text) (ms : Members) (v : ValuesOf ms)
      → all_well_named ms ≡ true
      → All (λ k. has_name (first_name path k) ms ≡ true) (member_settings spell path ms v)
  members-named path end v h = tt
  members-named path (member name d ms) (v, vs) h =
      let (no_dot, g) = and_true _ _ h in
      let (new, g') = and_true _ _ g in
      All-append (λ k. has_name (first_name path k) (member name d ms) ≡ true)
        (settings spell (key_of path name) d v) (member_settings spell path ms vs)
        (All-map (λ k. first_name path k ≡ bytes name)
          (λ k. has_name (first_name path k) (member name d ms) ≡ true)
          (settings spell (key_of path name) d v) (λ k e. rw (e, equal_refl (bytes name)) refl)
          (named_here path name d v (false_of_not _ no_dot)))
        (All-map (λ k. has_name (first_name path k) ms ≡ true)
          (λ k. has_name (first_name path k) (member name d ms) ≡ true)
          (member_settings spell path ms vs)
          (λ k e. if_true (equal (bytes name) (first_name path k)) _ e)
          (members-named path ms vs (and_true _ _ g').1))

  mutual
    pub settings-Once :
        (path : Text) (d : Described) (v : ValueOf d)
        → well_named d ≡ true
        → Once (settings spell path d v)
    settings-Once path (leaf l) v h = (tt, tt)
    settings-Once path (struct ms) v h = members-Once path ms v h

    members-Once :
        (path : Text) (ms : Members) (v : ValuesOf ms)
        → all_well_named ms ≡ true
        → Once (member_settings spell path ms v)
    members-Once path end v h = tt
    members-Once path (member name d ms) (v, vs) h =
        let (no_dot, g) = and_true _ _ h in
        let (new, g') = and_true _ _ g in
        let (here, later) = and_true _ _ g' in
        Once-append (settings spell (key_of path name) d v) (member_settings spell path ms vs)
          (settings-Once (key_of path name) d v here) (members-Once path ms vs later)
          (All-map (λ k. first_name path k ≡ bytes name)
            (λ k. All (λ j. k ≢ j) (member_settings spell path ms vs))
            (settings spell (key_of path name) d v)
            (λ k e.
              All-map (λ j. has_name (first_name path j) ms ≡ true) (λ j. k ≢ j)
                (member_settings spell path ms vs)
                (λ j n same.
                  true_and_false (has_name (bytes name) ms) (false_of_not _ new)
                    (ap (λ x. has_name x ms) (sym e ∙ ap (first_name path) same) ∙ n))
                (members-named path ms vs later))
            (named_here path name d v (false_of_not _ no_dot)))
