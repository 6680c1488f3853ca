-- ===== src/Dpdkx/Described/Loading/RoundTrip.antt =====
-- What `load_value` reads from options that spell a value out.
use native.Mathlib.Nat.{mod-eq_of_lt}
use dpdk_tools.Common.{ℕ, ◌^◌, ◌<◌, ◌≡◌, refl, ap, true, Option, some}
use dpdk_tools.Dpdkx.Config.Options.{Text, Value, text}
use dpdk_tools.Dpdkx.Described.{
  Leaf, width, Described, leaf, struct, Members, end, member, ValueOf, ValuesOf, InRange,
  AllInRange,
}
use dpdk_tools.Dpdkx.Described.Loading.{
  loaded, key_of, load_text, load_leaf, load_value, load_members,
}
use dpdk_tools.Dpdkx.Described.Loading.Settings.{
  lookup, well_named, Holds, Holds-append, settings, member_settings, Once-Holds,
}
use dpdk_tools.Dpdkx.Described.Loading.Keys.{settings-Once}

module _ (options : Text → Value) (parse_value : Leaf → Text → Option ℕ) (spell : Leaf → ℕ → Text)
    (parse-spell : (l : Leaf) (v : ℕ) → v < 2 ^ width l → parse_value l (spell l v) ≡ some v) where
  leaf_loaded :
      (l : Leaf) (path : Text) (v w : ℕ)
      → w < 2 ^ width l
      → options path ≡ text (spell l w)
      → load_leaf options parse_value l path v ≡ loaded w
  leaf_loaded l path v w h e =
      rw (load_leaf, e, load_text, parse-spell l w h) (ap loaded (mod-eq_of_lt h))

  mutual
    unfolding load_value

    value_loaded :
        (path : Text) (d : Described) (v w : ValueOf d)
        → InRange d w
        → Holds options (settings spell path d w)
        → load_value options parse_value path d v ≡ loaded w
    value_loaded path (leaf l) v w h (e, g) = leaf_loaded l path v w h e
    value_loaded path (struct ms) v w h g = members_loaded path ms v w h g

    members_loaded :
        (path : Text) (ms : Members) (v w : ValuesOf ms)
        → AllInRange ms w
        → Holds options (member_settings spell path ms w)
        → load_members options parse_value path ms v ≡ loaded w
    members_loaded path end v w h g = refl
    members_loaded path (member name d ms) (v, vs) (w, ws) (h, hs) g =
        let (here, later) = Holds-append options (settings spell (key_of path name) d w) _ g in
        rw (value_loaded (key_of path name) d v w h here, members_loaded path ms vs ws hs later)
          refl

-- Where the parsers read back what is spelled, and no type has two members of one name or a name with
-- a dot, `load_value` on the options that spell a value out, one for each leaf, gives that value,
-- whatever the value was before.
pub load_value-settings :
    (parse_value : Leaf → Text → Option ℕ) (spell : Leaf → ℕ → Text)
    → ((l : Leaf) (v : ℕ) → v < 2 ^ width l → parse_value l (spell l v) ≡ some v)
    → (path : Text) (d : Described) (v w : ValueOf d) → well_named d ≡ true
    → InRange d w
    → load_value (lookup (settings spell path d w)) parse_value path d v ≡ loaded w
load_value-settings parse_value spell parse-spell path d v w named h =
    value_loaded _ parse_value spell parse-spell path d v w h
      (Once-Holds (settings spell path d w) (settings-Once spell path d w named))
