-- ===== src/Dpdkx/Config/Options/Laws.antt =====
-- The words that a program hands to the EAL.
use dpdk_tools.Common.{
  ◌-◌, ◌≡◌, refl, ap, ◌∙◌, sym, ◌==◌, Bool, true, false, Bool-cases, ◌⊎◌, inl, inr, List, [], ◌∷◌,
  ◌++◌, length, append-nil, append_assoc, if◌then◌else◌,
}
use dpdk_tools.Dpdkx.Config.Sockets.{push_back}
use dpdk_tools.Dpdkx.Config.Options.{
  Text, starts_with, Value, empty_value, text, texts, unlike, words, eal_prefix, eal_name,
  more_values, add_value, add_option, and_then, add_options, eal_option,
}

-- The values that an option has.
abbrev pub values : Value → List Text
values empty_value = []
values (text []) = []
values (text (c ∷ cs)) = (c ∷ cs) ∷ []
values (texts vs) = vs
values unlike = []

-- A switch without a value is its name, an option is its name in front of each of its values.
abbrev pub each : Text → List Text → List Text
each name [] = []
each name (v ∷ vs) = name ∷ v ∷ each name vs

abbrev pub switch_or_each : Text → List Text → List Text
switch_or_each name [] = name ∷ []
switch_or_each name (v ∷ vs) = each name (v ∷ vs)

-- Whether an option goes on to the EAL: it has the prefix, and something behind it.
abbrev pub is_eal : Text → Bool
is_eal key =
    if starts_with eal_prefix key
    then (if length key - length eal_prefix == 0 then false else true)
    else false

abbrev pub eal_words : List (Text × Value) → List Text
eal_words [] = []
eal_words ((key, value) ∷ options) =
    (if is_eal key then switch_or_each (eal_name key) (values value) else []) ++ eal_words options

-- A string, a vector of strings with an element, or no value.
abbrev pub IsText : Value → Type 0
IsText empty_value = Unit
IsText (text t) = Unit
IsText (texts []) = ⊥
IsText (texts (v ∷ vs)) = Unit
IsText unlike = ⊥

abbrev pub EalText : List (Text × Value) → Type 0
EalText [] = Unit
EalText ((key, value) ∷ options) = ((is_eal key ≡ false) ⊎ IsText value) × EalText options

more_values-each : (name : Text) (vs ws : List Text) → more_values name vs ws ≡ ws ++ each name vs
unfolding more_values
more_values-each name [] ws = sym (append-nil ws)
more_values-each name (v ∷ vs) ws = more_values-each name vs _ ∙ simp (append_assoc)

add_value-switch_or_each :
    (name : Text) (value : Value) (ws : List Text)
    → IsText value
    → add_value name value (push_back name ws) ≡ words (ws ++ switch_or_each name (values value))
unfolding add_value
add_value-switch_or_each name empty_value ws h = refl
add_value-switch_or_each name (text []) ws h = refl
add_value-switch_or_each name (text (c ∷ cs)) ws h =
    ap words (append_assoc ws (name ∷ []) ((c ∷ cs) ∷ []))
add_value-switch_or_each name (texts []) ws h = absurd h
add_value-switch_or_each name (texts (v ∷ vs)) ws h = ap words (more_values-each name (v ∷ vs) ws)
add_value-switch_or_each name unlike ws h = absurd h

true_or_false : (b : Bool) → b ≡ true → b ≡ false → ⊥
true_or_false true h g = cc
true_or_false false h g = cc

add_option-switch_or_each :
    (key : Text) (value : Value) (ws : List Text)
    → (is_eal key ≡ false) ⊎ IsText value
    → add_option key value ws
      ≡ words (ws ++ (if is_eal key then switch_or_each (eal_name key) (values value) else []))
unfolding add_option
add_option-switch_or_each key value ws h = elim (Bool-cases (starts_with eal_prefix key)) [
  | inr plain ↦ rw (plain) (ap words (sym (append-nil ws)))
  | inl eal ↦ elim (Bool-cases (length key - length eal_prefix == 0)) [
    | inl bare ↦ rw (eal, bare) (ap words (sym (append-nil ws)))
    | inr named ↦
        rw (eal, named)
          (elim h [
            | inl not_eal ↦ absurd (true_or_false (is_eal key) (goes eal named) not_eal)
            | inr is_text ↦ add_value-switch_or_each (eal_name key) value ws is_text
          ])
  ]
]
  where
    goes :
        starts_with eal_prefix key ≡ true
        → (length key - length eal_prefix == 0) ≡ false
        → is_eal key ≡ true
    goes eal named = rw (eal, named) refl

add_options-eal_words :
    (options : List (Text × Value)) (ws : List Text)
    → EalText options
    → add_options options ws ≡ words (ws ++ eal_words options)
unfolding add_options add_option
add_options-eal_words [] ws h = ap words (sym (append-nil ws))
add_options-eal_words ((key, value) ∷ options) ws (h, hs) =
    ap (λ w. and_then w (add_options options)) (add_option-switch_or_each key value ws h)
    ∙ add_options-eal_words options _ hs
    ∙ ap words (append_assoc ws _ (eal_words options))

-- Where each option for the EAL has no value, a string or a vector with an element, the words are the
-- name of the program and then, option by option in the order of the map, the name of the option in
-- front of each of its values, or alone where it has none; other options leave no word.
pub eal_option-words :
    (app_name : Text) (options : List (Text × Value))
    → EalText options
    → eal_option app_name options ≡ words (app_name ∷ eal_words options)
unfolding eal_option
eal_option-words app_name options h = add_options-eal_words options (app_name ∷ []) h
