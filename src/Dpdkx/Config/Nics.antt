-- ===== src/Dpdkx/Config/Nics.antt =====
-- dpdkx/config/program_options.cpp: `get_nic_info`, the addresses that the options give to NICs.
pub mod View
use mathlib.Core.Option
use dpdk_tools.Common.{
  ℕ, ◌-◌, ◌==◌, if◌then◌else◌, Bool, true, false, List, [], ◌∷◌, ◌++◌, length, drop, take, Option,
  none, some,
}
use dpdk_tools.Dpdkx.Config.Options.{
  Text, equal, starts_with, Value, empty_value, text, texts, unlike,
}
use dpdk_tools.Dpdkx.Config.Devices.{NicInfo}
use dpdk_tools.Dpdkx.Described.{bytes}
use dpdk_tools.Dpdkx.Described.Loading.{dot}

abbrev pub nic : Text
nic = bytes "nic."

-- The part of a text before its first dot, and the rest from there on.
abbrev pub before_dot : Text → Text
before_dot [] = []
before_dot (c ∷ cs) = if c == dot then [] else c ∷ before_dot cs

abbrev pub from_dot : Text → Text
from_dot [] = []
from_dot (c ∷ cs) = if c == dot then c ∷ cs else from_dot cs

-- `options[key]`
abbrev pub option_at : List (Text × Value) → Text → Value
option_at [] key = empty_value
option_at ((k, value) ∷ options) key = if equal k key then value else option_at options key

-- What one option sets: nothing; the addresses and the name of the NIC with a MAC address; or its
-- value, or that of one which goes with it, is no string, and the cast throws.
pub data Setting : Type 0 where
  ignored : Setting
  sets : List ℕ → ℕ → Option (List ℕ) → Option Text → Setting
  bad_any_cast : Setting

abbrev pub apply : ℕ → Option (List ℕ) → Option Text → NicInfo → NicInfo
apply ipv4 ipv6 name info = record {
  name = elim name [ none ↦ info.name | some n ↦ n ];
  mac = info.mac;
  ipv4 = ipv4 ∷ [];
  ipv6 = elim ipv6 [ none ↦ info.ipv6 | some addr ↦ addr ∷ [] ];
}

abbrev pub new_nic : List ℕ → NicInfo
new_nic mac = record { name = []; mac = mac; ipv4 = []; ipv6 = [] }

-- The change of the NIC with a MAC address, which is added if there is none.
unfoldable pub update_nic : List ℕ → (NicInfo → NicInfo) → List NicInfo → List NicInfo
update_nic mac change [] = change (new_nic mac) ∷ []
update_nic mac change (info ∷ nics_info) =
    let rest = update_nic mac change nics_info in
    if equal info.mac mac then change info ∷ nics_info else info ∷ rest

-- The name that goes with the addresses.
abbrev pub with_name : List ℕ → ℕ → Option (List ℕ) → Value → Setting
with_name mac ipv4 ipv6 empty_value = sets mac ipv4 ipv6 none
with_name mac ipv4 ipv6 (text name) = sets mac ipv4 ipv6 (some name)
with_name mac ipv4 ipv6 value = bad_any_cast

-- The parsers of addresses, the libraries': none where they refuse the text.
module _ (unformat_addr : Text → Option (List ℕ)) (pton : Text → Option ℕ)
    (pton6 : Text → Option (List ℕ)) where
  abbrev pub with_ip6 : List ℕ → ℕ → Value → Value → Setting
  with_ip6 mac ipv4 empty_value name = with_name mac ipv4 none name
  with_ip6 mac ipv4 (text address) name = with_name mac ipv4 (pton6 address) name
  with_ip6 mac ipv4 value name = bad_any_cast

  abbrev pub with_ip : List (Text × Value) → Text → List ℕ → Value → Setting
  with_ip options nic_id mac (text address) = elim (pton address) [
    | none ↦ ignored
    | some ipv4 ↦
        with_ip6 mac ipv4 (option_at options (nic_id ++ bytes ".ip6"))
          (option_at options (nic_id ++ bytes ".name"))
  ]
  with_ip options nic_id mac value = bad_any_cast

  -- "nic.<mac>.ip"
  unfoldable pub read_setting : List (Text × Value) → Text → Value → Setting
  read_setting options key value =
      let id = drop (length nic) key in
      if starts_with nic key
      then (if equal (from_dot id) (bytes ".ip")
          then (elim (unformat_addr (before_dot id)) [
            | none ↦ ignored
            | some mac ↦ with_ip options (nic ++ before_dot id) mac value
          ])
          else ignored)
      else ignored

  -- The loop over the options, and what it leaves of the NICs of the machine; none if it throws.
  unfoldable pub read_settings :
      List (Text × Value) → List (Text × Value) → List NicInfo → Option (List NicInfo)
  unfolding read_setting update_nic
  read_settings options [] nics_info = some nics_info
  read_settings options ((key, value) ∷ left) nics_info = elim (read_setting options key value) [
    | ignored ↦ read_settings options left nics_info
    | sets mac ipv4 ipv6 name ↦
        read_settings options left (update_nic mac (apply ipv4 ipv6 name) nics_info)
    | bad_any_cast ↦ none
  ]

  unfoldable pub get_nic_info : List (Text × Value) → List NicInfo → Option (List NicInfo)
  unfolding read_settings
  get_nic_info options nics_info = read_settings options options nics_info
