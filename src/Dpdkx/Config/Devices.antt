-- ===== src/Dpdkx/Config/Devices.antt =====
-- dpdkx/config/program_options.cpp: the configuration of each device, and which devices an id means.
pub mod Laws
use dpdk_tools.Common.{
  ℕ, zero, suc, ◌^◌, ◌-◌, ltb, ◌==◌, if◌then◌else◌, ◌>>=◌, Bool, true, false, ◌&&◌, ◌||◌, not, List,
  [], ◌∷◌, Option, none, some, bit_and, map, ◌++◌,
}
use dpdk_tools.Dpdkx.Jobs.{is_empty}
use dpdk_tools.Dpdkx.Config.Options.{Text, equal}

-- utils::net::nic_info, of which the code uses these. A MAC address is a vector of bytes, an IPv4
-- address the number in it, an IPv6 address its bytes.
pub record NicInfo : Type 0 where
  pub name : Text
  pub mac : List ℕ
  pub ipv4 : List ℕ
  pub ipv6 : List (List ℕ)

-- rte_eth_dev_info, as far as the configuration reads or writes it.
pub record DevInfo : Type 0 where
  pub driver_name : Text
  pub rx_nb_queues : ℕ
  pub tx_nb_queues : ℕ
  pub max_rx_queues : ℕ
  pub max_tx_queues : ℕ
  pub rx_offload_capa : ℕ
  pub tx_offload_capa : ℕ

pub record ConfigDevice : Type 0 where
  pub id : Text
  pub socket_id : ℕ
  pub port_id : ℕ
  pub mac_addr : List ℕ
  pub ip4_addr : ℕ
  pub ip6_addr : List ℕ
  pub svc_tx_n : ℕ
  pub info : DevInfo
  pub rx_offload : ℕ
  pub tx_offload : ℕ
  pub rx_meta_features : ℕ

abbrev zeros : ℕ → List ℕ
zeros zero = []
zeros (suc n) = 0 ∷ zeros n

-- A `config::device{}`; `meta` is the set of features that it asks for.
abbrev pub initial : ℕ → ConfigDevice
initial meta = record {
  id = [];
  socket_id = 0;
  port_id = 0;
  mac_addr = zeros 6;
  ip4_addr = 0;
  ip6_addr = zeros 16;
  svc_tx_n = 65535;
  info = record {
    driver_name = [];
    rx_nb_queues = 0;
    tx_nb_queues = 0;
    max_rx_queues = 0;
    max_tx_queues = 0;
    rx_offload_capa = 0;
    tx_offload_capa = 0;
  };
  rx_offload = 2 ^ 64 - 1;
  tx_offload = 2 ^ 64 - 1;
  rx_meta_features = meta;
}

unfoldable pub find_nic : List ℕ → List NicInfo → Option NicInfo
find_nic mac_addr [] = none
find_nic mac_addr (n ∷ ns) = if equal n.mac mac_addr then some n else find_nic mac_addr ns

abbrev pub front {ℓ} : {A : Type ℓ} → A → List A → A
front default [] = default
front default (x ∷ xs) = x

-- What a device takes over from the NIC of the machine that has its MAC address.
unfoldable pub describe : Option NicInfo → ConfigDevice → ConfigDevice
describe none dev = dev
describe (some info) dev = record dev {
  id = info.name;
  ip4_addr = front dev.ip4_addr info.ipv4;
  ip6_addr = front dev.ip6_addr info.ipv6;
}

unfoldable pub settle_info : DevInfo → DevInfo
settle_info info = record info {
  rx_nb_queues = if info.rx_nb_queues == 0 then info.max_rx_queues else info.rx_nb_queues;
  tx_nb_queues = if info.tx_nb_queues == 0 then info.max_tx_queues else info.tx_nb_queues;
}

unfoldable pub settle : ConfigDevice → ConfigDevice
unfolding settle_info
settle dev =
    let info = settle_info dev.info in
    record dev {
      info = info;
      svc_tx_n = if ltb info.tx_nb_queues dev.svc_tx_n then info.tx_nb_queues else dev.svc_tx_n;
      rx_offload = bit_and dev.rx_offload info.rx_offload_capa;
      tx_offload = bit_and dev.tx_offload info.tx_offload_capa;
    }

-- A call of `rte_eth_rx_metadata_negotiate` that fails leaves no features.
abbrev pub negotiated : Option ℕ → ℕ
negotiated none = 0
negotiated (some features) = features

-- What the EAL answers for a port, and what the options hold: `load` is `load_value` under a key and
-- the features under it. None is a call that fails, or a value that cannot be read: the code throws.
module _ (meta : ℕ) (socket_id : ℕ → ℕ) (macaddr_get : ℕ → Option (List ℕ))
    (dev_info_get : ℕ → Option DevInfo) (negotiate : ℕ → ℕ → Option ℕ) (to_string : ℕ → Text)
    (device_key : List ℕ → Text) (load : Text → ConfigDevice → Option ConfigDevice)
    (nics_info : List NicInfo) where
  unfoldable pub configure_port : ℕ → Option ConfigDevice
  unfolding find_nic describe settle
  configure_port port_id = do
    mac_addr ← macaddr_get port_id
    let dev = record (initial meta) {
      port_id = port_id;
      socket_id = socket_id port_id;
      mac_addr = mac_addr;
    }
    let described = describe (find_nic mac_addr nics_info) dev
    info ← dev_info_get port_id
    let named = record described {
      info = info;
      id = if is_empty described.id then to_string port_id else described.id;
    }
    by_driver ← load info.driver_name named
    by_device ← load (device_key by_driver.mac_addr) by_driver
    let settled = settle by_device
    some (record settled {
      rx_meta_features = negotiated (negotiate port_id settled.rx_meta_features);
    })

  unfoldable pub devices_configuration : List ℕ → Option (List ConfigDevice)
  unfolding configure_port
  devices_configuration [] = some []
  devices_configuration (port_id ∷ port_ids) = do
    dev ← configure_port port_id
    res ← devices_configuration port_ids
    some (dev ∷ res)

-- "net_igc"
abbrev pub net_igc : Text
net_igc = 110 ∷ 101 ∷ 116 ∷ 95 ∷ 105 ∷ 103 ∷ 99 ∷ []

-- `sound` is the complement of the four offloads that are cleared.
unfoldable pub apply_workarounds : ℕ → List ConfigDevice → List ConfigDevice
apply_workarounds sound [] = []
apply_workarounds sound (dev ∷ devices) =
    let fixed = record dev.info { rx_offload_capa = bit_and dev.info.rx_offload_capa sound } in
    (if equal net_igc dev.info.driver_name then record dev { info = fixed } else dev)
    ∷ apply_workarounds sound devices

pub record DeviceMatcher : Type 0 where
  pub id : Text
  pub mac : List ℕ
  pub addr : Option ℕ

-- `unformat_addr` and `pton` are `rte_ether_unformat_addr` and `inet_pton`.
unfoldable pub device_matcher : (Text → Option (List ℕ)) → (Text → Option ℕ) → Text → DeviceMatcher
device_matcher unformat_addr pton id = record {
  id = id;
  mac = elim (unformat_addr id) [ none ↦ [] | some mac ↦ mac ];
  addr = pton id;
}

abbrev pub any_of : ℕ → List ℕ → Bool
any_of addr [] = false
any_of addr (a ∷ addrs) = (addr == a) || any_of addr addrs

abbrev pub is_any_of : Option ℕ → List ℕ → Bool
is_any_of none addrs = false
is_any_of (some addr) addrs = any_of addr addrs

unfoldable pub matches_nic : DeviceMatcher → NicInfo → Bool
matches_nic m info =
    equal info.name m.id
    || (not (is_empty m.mac) && equal info.mac m.mac)
    || is_any_of m.addr info.ipv4

unfoldable pub matches_mac : DeviceMatcher → List ℕ → Bool
matches_mac m mac_addr = not (is_empty m.mac) && equal m.mac mac_addr

unfoldable pub matches_device : DeviceMatcher → ConfigDevice → Bool
matches_device m dev = equal dev.id m.id || is_any_of m.addr (dev.ip4_addr ∷ [])
