-- ===== src/Dpdkx/Config/Devices/Laws.antt =====
-- The devices that a program is configured with.

use dpdk_tools.Common.{
  ℕ, ◌≤◌, ◌||◌, Bool, ◌≡◌, refl, ◌⊎◌, true, false, List, [], ◌∷◌, length, Option, none, some,
  bit_and, arith,
}
use dpdk_tools.Dpdkx.Config.Options.{Text}
use dpdk_tools.Dpdkx.Config.Devices.{
  NicInfo, DevInfo, ConfigDevice, describe, is_any_of, front, configure_port, devices_configuration,
  DeviceMatcher, matches_nic, matches_device,
}

-- No more service queues than queues, no queues only on a device that has none, and no offload that
-- the device cannot do.
abbrev pub IsSettled : ConfigDevice → Type 0
IsSettled dev =
    (dev.svc_tx_n ≤ dev.info.tx_nb_queues)
    × ((dev.info.max_rx_queues ≡ 0) ⊎ (1 ≤ dev.info.rx_nb_queues))
    × ((dev.info.max_tx_queues ≡ 0) ⊎ (1 ≤ dev.info.tx_nb_queues))
    × ((x : ℕ) × (dev.rx_offload ≡ bit_and x dev.info.rx_offload_capa))
    × ((x : ℕ) × (dev.tx_offload ≡ bit_and x dev.info.tx_offload_capa))

abbrev pub AllSettled : List ConfigDevice → Type 0
AllSettled [] = Unit
AllSettled (d ∷ ds) = IsSettled d × AllSettled ds

abbrev IsSettledIf : Option ConfigDevice → Type 0
IsSettledIf none = Unit
IsSettledIf (some dev) = IsSettled dev

module _ (meta : ℕ) (socket_id : ℕ → ℕ) (macaddr_get : ℕ → Option (List ℕ))
    (dev_info_get : ℕ → Option DevInfo) (negotiate : ℕ → ℕ → Option ℕ) (to_string : ℕ → Text)
    (device_key : List ℕ → Text) (load : Text → ConfigDevice → Option ConfigDevice)
    (nics_info : List NicInfo) where
  abbrev pub configured : ℕ → Option ConfigDevice
  configured =
      configure_port meta socket_id macaddr_get dev_info_get negotiate to_string device_key load
        nics_info

  abbrev pub all_configured : List ℕ → Option (List ConfigDevice)
  all_configured =
      devices_configuration meta socket_id macaddr_get dev_info_get negotiate to_string device_key
        load nics_info

  abbrev pub Fails : List ℕ → Type 0
  Fails [] = ⊥
  Fails (p ∷ ps) = (configured p ≡ none) ⊎ Fails ps

  abbrev pub SettledOr : List ℕ → Option (List ConfigDevice) → Type 0
  SettledOr ports none = Fails ports
  SettledOr ports (some devs) = (length devs ≡ length ports) × AllSettled devs

or_any :
    (b c : Bool) (o : Option ℕ) (xs : List ℕ) (ip4_addr a : ℕ) (more : List ℕ)
    → xs ≡ a ∷ more
    → (b || is_any_of o (front ip4_addr xs ∷ [])) ≡ true
    → (b || c || is_any_of o xs) ≡ true
or_any true c o xs ip4_addr a more eq h = refl
or_any false c o [] ip4_addr a more eq h = cc
or_any false c none (x ∷ xs) ip4_addr a more eq h = cc
or_any false true (some o) (x ∷ xs) ip4_addr a more eq h = refl
or_any false false (some o) (x ∷ xs) ip4_addr a more eq h = ground arith

-- A device described from a NIC that has a name and an address is matched only where its NIC is.
matches_device-matches_nic :
    (m : DeviceMatcher) (nic : NicInfo) (dev : ConfigDevice) (a : ℕ) (more : List ℕ)
    → nic.ipv4 ≡ a ∷ more
    → matches_device m (describe (some nic) dev) ≡ true
    → matches_nic m nic ≡ true
unfolding matches_device matches_nic describe
matches_device-matches_nic m nic dev a more h matched =
    or_any _ _ m.addr nic.ipv4 dev.ip4_addr a more h matched
