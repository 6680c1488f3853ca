-- ===== src/Dpdkx/Described.antt =====
-- dpdkx/io.hpp and dpdkx/config/io.hpp: values described by the names and types of their members.
pub mod Tables
pub mod Schema
pub mod Loading
pub mod Printing
use Prim.Native.Char.{code}
use Prim.Native.String.{String}
use dpdk_tools.Common.{ℕ, ◌%◌, ◌^◌, ◌<◌, List, [], ◌∷◌}
use dpdk_tools.Dpdkx.Config.Options.{Text}

-- The bytes of a text.
abbrev pub bytes : String → Text
bytes String.[] = []
bytes (String.◌∷◌ c s) = code c ∷ bytes s

pub data Unsigned : Type 0 where
  uint8 uint16 uint32 uint64 : Unsigned

abbrev pub size_of : Unsigned → ℕ
size_of uint8 = 8
size_of uint16 = 16
size_of uint32 = 32
size_of uint64 = 64

-- `io::io_type` of a member without members of its own: an unsigned integer, the enumerations that the
-- offloads and features are cast to, and a bitset of 64 bits.
pub data Leaf : Type 0 where
  unsigned : Unsigned → Leaf
  rx_offloads tx_offloads rx_meta_features bitset : Leaf

abbrev pub width : Leaf → ℕ
width (unsigned type) = size_of type
width l = 64

-- What BOOST_DESCRIBE_STRUCT says of a type.
mutual
  pub data Described : Type 0 where
    leaf : Leaf → Described
    struct : Members → Described

  pub data Members : Type 0 where
    end : Members
    member : String → Described → Members → Members

-- The values of a described type.
abbrev mutual
  pub ValueOf : Described → Type 0
  ValueOf (leaf l) = ℕ
  ValueOf (struct ms) = ValuesOf ms

  pub ValuesOf : Members → Type 0
  ValuesOf end = Unit
  ValuesOf (member name d ms) = ValueOf d × ValuesOf ms

-- Each integer is one of its type.
abbrev mutual
  pub InRange : (d : Described) → ValueOf d → Type 0
  InRange (leaf l) v = v < 2 ^ width l
  InRange (struct ms) v = AllInRange ms v

  pub AllInRange : (ms : Members) → ValuesOf ms → Type 0
  AllInRange end v = Unit
  AllInRange (member name d ms) (v, vs) = InRange d v × AllInRange ms vs

-- An assignment to a member cuts a number to its width.
abbrev pub stored : Leaf → ℕ → ℕ
stored l v = v % 2 ^ width l
