-- ===== src/Dpdkx/Config/Nics/View.antt =====
-- `get_nic_info` as a change of each NIC on its own.
use mathlib.Core.Option
use dpdk_tools.Common.{
  ℕ, ◌≡◌, refl, sym, ap, ◌∙◌, if◌then◌else◌, true, false, Bool-cases, inl, inr, List, [], ◌∷◌,
  Option, none, some, arith,
}
use dpdk_tools.Dpdkx.Config.Options.{Text, equal, Value}
use dpdk_tools.Dpdkx.Config.Options.Equality.{equal_refl, equal→eq}
use dpdk_tools.Dpdkx.Config.Devices.{NicInfo, find_nic}
use dpdk_tools.Dpdkx.Config.Nics.{
  ignored, sets, bad_any_cast, apply, new_nic, update_nic, read_setting, read_settings,
  get_nic_info,
}

-- The NIC that has an address, or a new one.
abbrev pub or_new : List ℕ → Option NicInfo → NicInfo
or_new mac none = new_nic mac
or_new mac (some info) = info

abbrev pub changed : List ℕ → List ℕ → (NicInfo → NicInfo) → Option NicInfo → Option NicInfo
changed mac mac' change info = if equal mac' mac then some (change (or_new mac' info)) else info

module _ (unformat_addr : Text → Option (List ℕ)) (pton : Text → Option ℕ)
    (pton6 : Text → Option (List ℕ)) where
  -- The options as seen by one MAC address: each that sets something for it, in their order.
  abbrev pub view :
      List ℕ → List (Text × Value) → List (Text × Value) → Option NicInfo → Option (Option NicInfo)
  view mac options [] info = some info
  view mac options ((key, value) ∷ left) info =
      elim (read_setting unformat_addr pton pton6 options key value) [
        | ignored ↦ view mac options left info
        | sets mac' ipv4 ipv6 name ↦
            view mac options left (changed mac mac' (apply ipv4 ipv6 name) info)
        | bad_any_cast ↦ none
      ]

abbrev KeepsMac : (NicInfo → NicInfo) → Type 0
KeepsMac change = (info : NicInfo) → (change info).mac ≡ info.mac

-- Where one address is another, and a third is not.
not_both : (a b c : List ℕ) → equal a b ≡ true → equal a c ≡ false → equal c b ≡ true → ⊥
not_both a b c ab ac cb =
    true_false (sym (equal_refl a) ∙ ap (equal a) (equal→eq a b ab ∙ sym (equal→eq c b cb)) ∙ ac)
  where
    true_false : true ≡ false → ⊥
    true_false e = ground arith

find_nic-update_nic :
    (mac mac' : List ℕ) (change : NicInfo → NicInfo) (ns : List NicInfo)
    → KeepsMac change
    → find_nic mac (update_nic mac' change ns) ≡ changed mac mac' change (find_nic mac ns)
unfolding find_nic update_nic
find_nic-update_nic mac mac' change [] keeps = rw (keeps (new_nic mac')) refl
find_nic-update_nic mac mac' change (n ∷ ns) keeps = elim (Bool-cases (equal n.mac mac')) [
  | inl here ↦
      let same : equal mac' mac ≡ equal n.mac mac =
        ap (λ x. equal x mac) (sym (equal→eq n.mac mac' here)) in
      let kept : equal (change n).mac mac ≡ equal n.mac mac = ap (λ x. equal x mac) (keeps n) in
      elim (Bool-cases (equal n.mac mac)) [
        | inl found ↦ rw (here, find_nic, kept ∙ found, same ∙ found, found) refl
        | inr other ↦ rw (here, find_nic, kept ∙ other, same ∙ other, other) refl
      ]
  | inr later ↦ elim (Bool-cases (equal n.mac mac)) [
    | inl found ↦ elim (Bool-cases (equal mac' mac)) [
      | inl clash ↦ absurd (not_both n.mac mac mac' found later clash)
      | inr apart ↦ rw (later, find_nic, found, apart) refl
    ]
    | inr other ↦ rw (later, find_nic, other) (find_nic-update_nic mac mac' change ns keeps)
  ]
]

-- The NICs as a map from MAC addresses, found by their first entry: `get_nic_info` takes each address
-- through the options that set something for it, in their order, whatever they set for the others;
-- and it throws where an option is no string.
pub get_nic_info-view :
    (unformat_addr : Text → Option (List ℕ)) (pton : Text → Option ℕ)
    (pton6 : Text → Option (List ℕ)) (options : List (Text × Value)) (nics_info : List NicInfo)
    (mac : List ℕ)
    → Option.map (find_nic mac) (get_nic_info unformat_addr pton pton6 options nics_info)
      ≡ view unformat_addr pton pton6 mac options options (find_nic mac nics_info)
unfolding get_nic_info read_settings
get_nic_info-view unformat_addr pton pton6 options nics_info mac = loop options nics_info
  where
    loop :
        (left : List (Text × Value)) (ns : List NicInfo)
        → Option.map (find_nic mac) (read_settings unformat_addr pton pton6 options left ns)
          ≡ view unformat_addr pton pton6 mac options left (find_nic mac ns)
    loop [] ns = refl
    loop ((key, value) ∷ left) ns =
        elim (read_setting unformat_addr pton pton6 options key value)
          as (λ s.
            Option.map (find_nic mac) (elim s [
              | ignored ↦ read_settings unformat_addr pton pton6 options left ns
              | sets m ipv4 ipv6 name ↦
                  read_settings unformat_addr pton pton6 options left
                    (update_nic m (apply ipv4 ipv6 name) ns)
              | bad_any_cast ↦ none
            ])
            ≡ elim s [
              | ignored ↦ view unformat_addr pton pton6 mac options left (find_nic mac ns)
              | sets m ipv4 ipv6 name ↦
                  view unformat_addr pton pton6 mac options left
                    (changed mac m (apply ipv4 ipv6 name) (find_nic mac ns))
              | bad_any_cast ↦ none
            ]) [
              | ignored ↦ loop left ns
              | sets m ipv4 ipv6 name ↦
                  loop left (update_nic m (apply ipv4 ipv6 name) ns)
                  ∙ ap (view unformat_addr pton pton6 mac options left)
                      (find_nic-update_nic mac m (apply ipv4 ipv6 name) ns (λ info. refl))
              | bad_any_cast ↦ refl
            ]
