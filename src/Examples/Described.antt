-- ===== src/Examples/Described.antt =====
-- The theorems on described values at concrete inputs.
use Prim.Native.String.{String}
use dpdk_tools.Common.{
  ℕ, ◌^◌, ◌≤◌, ◌<◌, ◌≡◌, refl, true, List, [], ◌++◌, Option, some, arith, if◌then◌else◌, false,
}
use dpdk_tools.Dpdkx.Config.Options.{Text, Value, text, empty_value, equal}
use dpdk_tools.Dpdkx.Described.{
  bytes, Leaf, uint8, uint16, uint32, uint64, unsigned, rx_offloads, tx_offloads, rx_meta_features,
  bitset, width, ValueOf, InRange,
}
use dpdk_tools.Dpdkx.Described.Schema.{rte_eth_txconf, device}
use dpdk_tools.Dpdkx.Described.Loading.{loaded, load_value}
use dpdk_tools.Dpdkx.Described.Loading.Outcome.{HasLeaf, Follows, Outcome, load_value-Outcome}
use dpdk_tools.Dpdkx.Described.Loading.Settings.{lookup, well_named, settings}
use dpdk_tools.Dpdkx.Described.Loading.RoundTrip.{load_value-settings}
use dpdk_tools.Dpdkx.Described.Printing.{Out, number, prefixes, print}
use dpdk_tools.Dpdkx.Described.Printing.Digits.{decimal, decimal-digits}
use dpdk_tools.Dpdkx.Described.Printing.Pretty.{pretty, pretty_leaf, depth, print-pretty}

-- Members of DPDK's types are of 16 bits here.
abbrev type_of : String → Leaf
type_of name = unsigned uint16

abbrev decimals : Leaf → Text → Option ℕ
decimals l t = decimal t 0

abbrev spelled : Leaf → ℕ → Text
spelled l v = number false v

decimals-spelled : (l : Leaf) (v : ℕ) → v < 2 ^ width l → decimals l (spelled l v) ≡ some v
unfolding number
decimals-spelled l v h = decimal-digits 64 v (omega (arith, fits l, h))
  where
    fits : (l : Leaf) → 2 ^ width l ≤ 10 ^ 64
    fits (unsigned uint8) = omega arith
    fits (unsigned uint16) = omega arith
    fits (unsigned uint32) = omega arith
    fits (unsigned uint64) = omega arith
    fits rx_offloads = omega arith
    fits tx_offloads = omega arith
    fits rx_meta_features = omega arith
    fits bitset = omega arith

abbrev txconf : ValueOf (rte_eth_txconf type_of)
txconf = ((32, (1, (65535, tt))), (7, (8, (0, (10, tt)))))

abbrev no_txconf : ValueOf (rte_eth_txconf type_of)
no_txconf = ((0, (0, (0, tt))), (0, (0, (0, (0, tt)))))

txconf-InRange : InRange (rte_eth_txconf type_of) txconf
txconf-InRange = (
  (omega arith, (omega arith, (omega arith, tt))),
  (omega arith, (omega arith, (omega arith, (omega arith, tt)))),
)

load_value-settings_example :
    load_value
      (lookup (settings spelled (bytes "info") (rte_eth_txconf type_of) txconf))
      decimals
      (bytes "info")
      (rte_eth_txconf type_of)
      no_txconf
    ≡ loaded txconf
load_value-settings_example =
    load_value-settings decimals spelled decimals-spelled (bytes "info") (rte_eth_txconf type_of)
      no_txconf txconf refl txconf-InRange

-- An option for one member; for another, a text that is no number.
abbrev some_options : Text → Value
some_options key =
    if equal key (bytes "net_pcap.tx_free_thresh") then text (bytes "64") else empty_value

load_value-Outcome_example :
    Outcome some_options decimals
      (λ w.
        Follows some_options decimals (bytes "net_pcap") (rte_eth_txconf type_of) txconf w
        × InRange (rte_eth_txconf type_of) w)
      (HasLeaf (bytes "net_pcap") (rte_eth_txconf type_of))
      (load_value some_options decimals (bytes "net_pcap") (rte_eth_txconf type_of) txconf)
load_value-Outcome_example =
    load_value-Outcome some_options decimals (bytes "net_pcap") (rte_eth_txconf type_of) txconf
      txconf-InRange

load_test :
    load_value some_options decimals (bytes "net_pcap") (rte_eth_txconf type_of) txconf
    ≡ loaded ((32, (1, (65535, tt))), (7, (64, (0, (10, tt)))))
unfolding load_value
load_test = refl

abbrev no_names : ℕ → List String → Text
no_names v names = []

abbrev blank_out : Out
blank_out = record { text = []; hex = true; prefix = 7 }

print-pretty_example :
    print no_names (rte_eth_txconf type_of) txconf blank_out
    ≡ record blank_out { text = pretty no_names 0 (rte_eth_txconf type_of) txconf }
print-pretty_example = print-pretty no_names _ txconf blank_out (omega arith) (omega arith)

-- The members of a device are no deeper than the tabs, and their names are without dots.
device_test : (depth (device type_of) ≡ 4) × (well_named (device type_of) ≡ true)
device_test = (refl, refl)

-- A clock of 10^10 Hz.
clock_test : pretty_leaf no_names (unsigned uint64) (10 ^ 10) ≡ bytes "1410065408 (0x540be400)"
unfolding number
clock_test = refl

print_test :
    (print no_names (rte_eth_txconf type_of) txconf blank_out).text
    ≡ bytes
        "{\n\ttx_thresh : {\n\t\tpthresh : 32 (0x20)\n\t\ththresh : 1\n\t\twthresh : 65535 (0xffff)\n\t}"
      ++ bytes
          "\n\ttx_rs_thresh : 7\n\ttx_free_thresh : 8\n\ttx_deferred_start : 0\n\toffloads : 10 (0xa)\n}"
unfolding print number prefixes
print_test = refl
