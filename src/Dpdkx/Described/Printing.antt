-- ===== src/Dpdkx/Described/Printing.antt =====
-- dpdkx/config/io.cpp: the printing of a described value.
pub mod Pretty
pub mod Digits
use Prim.Native.String.{String}
use dpdk_tools.Common.{
  ℕ, zero, suc, ◌+◌, ◌-◌, ◌*◌, ◌/◌, ◌%◌, ◌^◌, ltb, ◌==◌, if◌then◌else◌, Bool, true, false, List, [],
  ◌∷◌, ◌++◌, drop, replicate,
}
use dpdk_tools.Dpdkx.Config.Options.{Text}
use dpdk_tools.Dpdkx.Described.{
  bytes, Leaf, unsigned, rx_offloads, tx_offloads, rx_meta_features, bitset, Described, leaf,
  struct, Members, end, member, ValueOf, ValuesOf,
}
use dpdk_tools.Dpdkx.Described.Tables.{names_of}

abbrev tab : ℕ
tab = 9

abbrev pub newline : ℕ
newline = 10

abbrev pub digit : ℕ → ℕ
digit d = if ltb d 10 then 48 + d else 87 + d

-- The digits of a number in a base, with room for so many of them.
abbrev pub digits : ℕ → ℕ → ℕ → Text
digits base zero n = []
digits base (suc room) n =
    let rest = digits base room (n / base) in
    (if ltb n base then [] else rest) ++ (digit (n % base) ∷ [])

-- `std::bitset::to_string`
abbrev pub bits : ℕ → ℕ → Text
bits zero n = []
bits (suc width) n = bits width (n / 2) ++ (digit (n % 2) ∷ [])

-- An `std::ostream` by what was written and whether its base is 16, and the `prefix` of the thread.
pub record Out : Type 0 where
  pub text : Text
  pub hex : Bool
  pub prefix : ℕ

abbrev pub put : Text → Out → Out
put t out = record out { text = out.text ++ t }

abbrev pub set_hex : Bool → Out → Out
set_hex hex out = record out { hex = hex }

-- 64 digits are enough for 64 bits.
unfoldable pub number : Bool → ℕ → Text
number true n = digits 16 64 n
number false n = digits 10 64 n

abbrev pub put_number : ℕ → Out → Out
put_number n out = put (number out.hex n) out

unfoldable pub prefixes : Text
prefixes = replicate 7 tab

abbrev pub put_indent : Out → Out
put_indent out = put (newline ∷ drop out.prefix prefixes) out

abbrev pub restore : Bool → Out → Out
restore hex out = record out { hex = hex; prefix = out.prefix + 1 }

module _ (flag_names : ℕ → List String → Text) where
  abbrev pub put_flags : Leaf → ℕ → Out → Out
  put_flags l v out =
      let written = put_number v (set_hex true out) in
      if v == 0 then written else put (58 ∷ flag_names v (names_of l)) written

  abbrev pub put_leaf : Leaf → ℕ → Out → Out
  put_leaf (unsigned type) v out =
      let written = put_number (v % 2 ^ 32) (set_hex false out) in
      if ltb v 10
      then written
      else put (bytes ")") (put_number (v % 2 ^ 32) (set_hex true (put (bytes " (0x") written)))
  put_leaf bitset v out = put (bits 64 v) out
  put_leaf l v out = put_flags l v out

  unfoldable mutual
    pub print : (d : Described) → ValueOf d → Out → Out
    print (leaf l) v out = put_leaf l v out
    print (struct ms) v out =
        let inner = print_members ms v (put (bytes "{") (record out { prefix = out.prefix - 1 })) in
        if out.prefix == 0
        then put (bytes "{...}\n") (put_indent out)
        else put (bytes "}") (put_indent (restore out.hex inner))

    pub print_members : (ms : Members) → ValuesOf ms → Out → Out
    print_members end v out = out
    print_members (member name d ms) (v, vs) out =
        print_members ms vs (print d v (put (bytes name ++ bytes " : ") (put_indent out)))
