-- ===== src/Dpdkx/Described/Loading/Settings.antt =====
-- Options that spell a described value out, and what `load_value` reads from them.
use dpdk_tools.Common.{
  ℕ, ◌≡◌, ◌≢◌, refl, ◌==◌, ◌&&◌, Bool, true, false, Bool-cases, not, inl, inr, List, [], ◌∷◌, ◌++◌,
  if◌then◌else◌,
}
use dpdk_tools.Dpdkx.Config.Options.{Text, equal, Value, empty_value, text}
use dpdk_tools.Dpdkx.Described.{
  bytes, Leaf, Described, leaf, struct, Members, end, member, ValueOf, ValuesOf,
}
use dpdk_tools.Dpdkx.Described.Loading.{dot, key_of}
use dpdk_tools.Dpdkx.Config.Options.Equality.{equal_refl, equal→eq}

abbrev pub Settings : Type 0
Settings = List (Text × Text)

abbrev pub lookup : Settings → Text → Value
lookup [] key = empty_value
lookup ((k, t) ∷ xs) key = if equal k key then text t else lookup xs key

-- Names without a dot, none of them twice in one type.
abbrev pub has_dot : Text → Bool
has_dot [] = false
has_dot (c ∷ cs) = if c == dot then true else has_dot cs

abbrev pub has_name : Text → Members → Bool
has_name name end = false
has_name name (member n d ms) = if equal (bytes n) name then true else has_name name ms

abbrev mutual
  pub well_named : Described → Bool
  well_named (leaf l) = true
  well_named (struct ms) = all_well_named ms

  pub all_well_named : Members → Bool
  all_well_named end = true
  all_well_named (member name d ms) =
      not (has_dot (bytes name))
      && (not (has_name (bytes name) ms) && (well_named d && all_well_named ms))

-- One option for each leaf, by its path.
module _ (spell : Leaf → ℕ → Text) where
  abbrev mutual
    pub settings : Text → (d : Described) → ValueOf d → Settings
    settings path (leaf l) v = (path, spell l v) ∷ []
    settings path (struct ms) v = member_settings path ms v

    pub member_settings : Text → (ms : Members) → ValuesOf ms → Settings
    member_settings path end v = []
    member_settings path (member name d ms) (v, vs) =
        settings (key_of path name) d v ++ member_settings path ms vs

-- Each option of the settings is among the options, with its text.
abbrev pub Holds : (Text → Value) → Settings → Type 0
Holds options [] = Unit
Holds options ((k, t) ∷ xs) = (options k ≡ text t) × Holds options xs

pub Holds-append :
    (options : Text → Value) (xs ys : Settings)
    → Holds options (xs ++ ys)
    → Holds options xs × Holds options ys
Holds-append options [] ys h = (tt, h)
Holds-append options ((k, t) ∷ xs) ys (e, h) =
    let (l, r) = Holds-append options xs ys h in ((e, l), r)

-- What all keys have.
abbrev pub All : (Text → Type 0) → Settings → Type 0
All P [] = Unit
All P ((k, t) ∷ xs) = P k × All P xs

-- No key twice.
abbrev pub Once : Settings → Type 0
Once [] = Unit
Once ((k, t) ∷ xs) = All (λ j. k ≢ j) xs × Once xs

pub All-append : (P : Text → Type 0) (xs ys : Settings) → All P xs → All P ys → All P (xs ++ ys)
All-append P [] ys h g = g
All-append P ((k, t) ∷ xs) ys (p, h) g = (p, All-append P xs ys h g)

pub All-map : (P Q : Text → Type 0) (xs : Settings) → ((k : Text) → P k → Q k) → All P xs → All Q xs
All-map P Q [] f h = tt
All-map P Q ((k, t) ∷ xs) f (p, h) = (f k p, All-map P Q xs f h)

pub Once-append :
    (xs ys : Settings) → Once xs → Once ys → All (λ k. All (λ j. k ≢ j) ys) xs → Once (xs ++ ys)
Once-append [] ys h g a = g
Once-append ((k, t) ∷ xs) ys (f, h) g (p, a) =
    (All-append (λ j. k ≢ j) xs ys f p, Once-append xs ys h g a)

Holds-skip :
    (k t : Text) (xs ys : Settings)
    → All (λ j. k ≢ j) ys
    → Holds (lookup xs) ys
    → Holds (lookup ((k, t) ∷ xs)) ys
Holds-skip k t xs [] a h = tt
Holds-skip k t xs ((j, u) ∷ ys) (ne, a) (e, h) = (
  elim (Bool-cases (equal k j)) [
    | inl same ↦ absurd (ne (equal→eq k j same))
    | inr other ↦ rw other e
  ],
  Holds-skip k t xs ys a h,
)

pub Once-Holds : (xs : Settings) → Once xs → Holds (lookup xs) xs
Once-Holds [] h = tt
Once-Holds ((k, t) ∷ xs) (f, h) = (rw (equal_refl k) refl, Holds-skip k t xs xs f (Once-Holds xs h))
