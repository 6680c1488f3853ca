-- ===== src/Dpdkx/Described/Loading.antt =====
-- dpdkx/config/program_options.cpp: `load_value` and `parse_value`.
pub mod Outcome
pub mod Settings
pub mod Keys
pub mod RoundTrip
use Prim.Native.String.{String}
use dpdk_tools.Common.{ℕ, List, [], ◌∷◌, ◌++◌, Option, none, some}
use dpdk_tools.Dpdkx.Config.Options.{Text, Value, empty_value, text, texts, unlike}
use dpdk_tools.Dpdkx.Described.{
  bytes, Leaf, unsigned, rx_offloads, tx_offloads, rx_meta_features, bitset, Described, leaf,
  struct, Members, end, member, ValueOf, ValuesOf, stored,
}

-- The value, or the exception, by the path that it names.
pub data Load (A : Type 0) : Type 0 where
  loaded : A → Load A
  unable_to_parse : Text → Load A
  invalid_argument : Text → Load A
  bad_any_cast : Text → Load A

abbrev pub and_load : {A B : Type 0} → Load A → (A → Load B) → Load B
and_load (loaded a) f = f a
and_load (unable_to_parse path) f = unable_to_parse path
and_load (invalid_argument path) f = invalid_argument path
and_load (bad_any_cast path) f = bad_any_cast path

-- '.'
abbrev pub dot : ℕ
dot = 46

abbrev pub key_of : Text → String → Text
key_of path name = path ++ (dot ∷ bytes name)

-- The constructor of `std::bitset` throws on its own; the parsers are the library's: their answer on a
-- text is that of a parser that has to read all of it.
abbrev pub parse_failed : Leaf → Text → Load ℕ
parse_failed bitset path = invalid_argument path
parse_failed l path = unable_to_parse path

-- The options, by their names, and the parsers, by `io_type`.
module _ (options : Text → Value) (parse_value : Leaf → Text → Option ℕ) where
  abbrev pub load_text : Leaf → Text → Text → Load ℕ
  load_text l path value = elim (parse_value l value) [
    | none ↦ parse_failed l path
    | some v ↦ loaded (stored l v)
  ]

  abbrev pub load_leaf : Leaf → Text → ℕ → Load ℕ
  load_leaf l path v = elim (options path) [
    | empty_value ↦ loaded v
    | text t ↦ load_text l path t
    | texts ts ↦ bad_any_cast path
    | unlike ↦ bad_any_cast path
  ]

  unfoldable mutual
    pub load_value : Text → (d : Described) → ValueOf d → Load (ValueOf d)
    load_value path (leaf l) v = load_leaf l path v
    load_value path (struct ms) v = load_members path ms v

    pub load_members : Text → (ms : Members) → ValuesOf ms → Load (ValuesOf ms)
    load_members path end v = loaded v
    load_members path (member name d ms) (v, vs) =
        and_load (load_value (key_of path name) d v)
          (λ w. and_load (load_members path ms vs) (λ ws. loaded (w, ws)))
