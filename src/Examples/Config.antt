-- ===== src/Examples/Config.antt =====
-- The theorems on the configuration at concrete inputs.
use mathlib.Core.Option
use dpdk_tools.Common.{ℕ, ◌≡◌, refl, List, [], ◌∷◌, Option, none, some, inl, inr}
use dpdk_tools.Dpdkx.Config.Options.{
  Text, Value, empty_value, text, texts, unlike, words, eal_name, eal_option,
}
use dpdk_tools.Dpdkx.Config.Options.Laws.{eal_words, eal_option-words}
use dpdk_tools.Dpdkx.Config.Devices.{NicInfo, DevInfo, find_nic}
use dpdk_tools.Dpdkx.Described.{bytes}
use dpdk_tools.Dpdkx.Config.Nics.{get_nic_info}
use dpdk_tools.Dpdkx.Config.Nics.View.{view, get_nic_info-view}

-- `eal.l` twice, `eal.no-huge` (here `eal.nh`) without a value, and a number under another name.
abbrev options : List (Text × Value)
options =
    (101 ∷ 97 ∷ 108 ∷ 46 ∷ 108 ∷ [], texts ((48 ∷ []) ∷ (49 ∷ []) ∷ []))
    ∷ (101 ∷ 97 ∷ 108 ∷ 46 ∷ 110 ∷ 104 ∷ [], empty_value)
    ∷ (116 ∷ 116 ∷ 108 ∷ [], unlike)
    ∷ []

eal_option-words_example : eal_option (97 ∷ []) options ≡ words ((97 ∷ []) ∷ eal_words options)
eal_option-words_example = eal_option-words (97 ∷ []) options (inr tt, (inr tt, (inl refl, tt)))

eal_words_test :
    eal_words options
    ≡ (45 ∷ 108 ∷ []) ∷ (48 ∷ []) ∷ (45 ∷ 108 ∷ []) ∷ (49 ∷ []) ∷ (45 ∷ 45 ∷ 110 ∷ 104 ∷ []) ∷ []
unfolding eal_name
eal_words_test = refl

abbrev nic : NicInfo
nic = record { name = 101 ∷ []; mac = 2 ∷ 0 ∷ 0 ∷ 0 ∷ 0 ∷ 1 ∷ []; ipv4 = 16777226 ∷ []; ipv6 = [] }

abbrev port_info : ℕ → Option DevInfo
port_info port_id = some (record {
  driver_name = 110 ∷ [];
  rx_nb_queues = 0;
  tx_nb_queues = 2;
  max_rx_queues = 4;
  max_tx_queues = 4;
  rx_offload_capa = 15;
  tx_offload_capa = 7;
})

abbrev port_mac : ℕ → Option (List ℕ)
port_mac port_id = some (2 ∷ 0 ∷ 0 ∷ 0 ∷ 0 ∷ port_id ∷ [])

-- A NIC of the machine, and options for it and for another one.
abbrev machine_nic : NicInfo
machine_nic = record { name = bytes "eth0"; mac = bytes "a1"; ipv4 = []; ipv6 = [] }

abbrev nic_options : List (Text × Value)
nic_options =
    (bytes "nic.a1.ip", text (bytes "1"))
    ∷ (bytes "nic.a1.name", text (bytes "lan"))
    ∷ (bytes "nic.b2.ip", text (bytes "2"))
    ∷ []

abbrev byte_of : Text → Option ℕ
byte_of [] = none
byte_of (c ∷ cs) = some c

get_nic_info-view_example :
    Option.map
      (find_nic (bytes "b2"))
      (get_nic_info some byte_of some nic_options (machine_nic ∷ []))
    ≡ view some byte_of some
        (bytes "b2")
        nic_options
        nic_options
        (find_nic (bytes "b2") (machine_nic ∷ []))
get_nic_info-view_example =
    get_nic_info-view some byte_of some nic_options (machine_nic ∷ []) (bytes "b2")

get_nic_info_test :
    get_nic_info some byte_of some nic_options (machine_nic ∷ [])
    ≡ some (
        record { name = bytes "lan"; mac = bytes "a1"; ipv4 = 49 ∷ []; ipv6 = [] }
        ∷ record { name = []; mac = bytes "b2"; ipv4 = 50 ∷ []; ipv6 = [] }
        ∷ [])
unfolding get_nic_info
get_nic_info_test = refl
