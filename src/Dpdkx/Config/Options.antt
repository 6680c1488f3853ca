-- ===== src/Dpdkx/Config/Options.antt =====
-- dpdkx/config/program_options.cpp: the options that go on to the EAL, and which device an option means.
pub mod Laws
pub mod Equality
use dpdk_tools.Common.{
  ℕ, zero, suc, ◌-◌, ◌==◌, if◌then◌else◌, Bool, true, false, ◌&&◌, ◌||◌, not, List, [], ◌∷◌, ◌++◌,
  length, drop, Option, none, some, bit_and,
}
use dpdk_tools.Dpdkx.Config.Sockets.{push_back}

-- The bytes of a std::string.
abbrev pub Text : Type 0
Text = List ℕ

abbrev pub equal : List ℕ → List ℕ → Bool
equal [] [] = true
equal [] (d ∷ ds) = false
equal (c ∷ cs) [] = false
equal (c ∷ cs) (d ∷ ds) = (c == d) && equal cs ds

abbrev pub starts_with : Text → Text → Bool
starts_with [] key = true
starts_with (c ∷ cs) [] = false
starts_with (c ∷ cs) (d ∷ ds) = (c == d) && starts_with cs ds

-- A boost::program_options::variable_value, by what its `empty` and its two casts answer: `unlike` is
-- a value of neither type.
pub data Value : Type 0 where
  empty_value : Value
  text : Text → Value
  texts : List Text → Value
  unlike : Value

-- The words, the exception of the second cast, or a read of the first element of an empty vector.
pub data Words : Type 0 where
  words : List Text → Words
  bad_any_cast : Words
  undefined : Words

-- "eal."
abbrev pub eal_prefix : Text
eal_prefix = 101 ∷ 97 ∷ 108 ∷ 46 ∷ []

-- One dash in front of a name of one letter, two in front of a longer one.
unfoldable pub eal_name : Text → Text
eal_name key =
    let name = drop (length eal_prefix) key in
    (if length key - length eal_prefix == 1 then 45 ∷ [] else 45 ∷ 45 ∷ []) ++ name

unfoldable pub more_values : Text → List Text → List Text → List Text
more_values name [] eal_strings = eal_strings
more_values name (v ∷ vs) eal_strings =
    more_values name vs (push_back v (push_back name eal_strings))

unfoldable pub add_value : Text → Value → List Text → Words
unfolding more_values
add_value name empty_value eal_strings = words eal_strings
add_value name (text []) eal_strings = words eal_strings
add_value name (text (c ∷ cs)) eal_strings = words (push_back (c ∷ cs) eal_strings)
add_value name (texts []) eal_strings = undefined
add_value name (texts (v ∷ vs)) eal_strings = words (more_values name vs (push_back v eal_strings))
add_value name unlike eal_strings = bad_any_cast

-- The body of the loop, the filter included.
unfoldable pub add_option : Text → Value → List Text → Words
unfolding eal_name add_value
add_option key value eal_strings =
    if starts_with eal_prefix key
    then (if length key - length eal_prefix == 0
        then words eal_strings
        else add_value (eal_name key) value (push_back (eal_name key) eal_strings))
    else words eal_strings

abbrev pub and_then : Words → (List Text → Words) → Words
and_then (words ws) k = k ws
and_then bad_any_cast k = bad_any_cast
and_then undefined k = undefined

unfoldable pub add_options : List (Text × Value) → List Text → Words
unfolding add_option
add_options [] eal_strings = words eal_strings
add_options ((key, value) ∷ options) eal_strings =
    and_then (add_option key value eal_strings) (add_options options)

unfoldable pub eal_option : Text → List (Text × Value) → Words
unfolding add_options
eal_option app_name options = add_options options (app_name ∷ [])
