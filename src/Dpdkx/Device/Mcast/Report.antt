-- ===== src/Dpdkx/Device/Mcast/Report.antt =====
-- The report that `mcast_group` sends, and the groups for which it sends none.
use dpdk_tools.Common.{
  ℕ, ◌+◌, ◌-◌, ◌/◌, ◌^◌, ◌<◌, ◌≤◌, ◌≡◌, refl, ◌∙◌, if◌then◌else◌, Bool, true, false, Bool-cases,
  ◌⊎◌, inl, inr, Option, none, some, arith,
}
use dpdk_tools.Common.Memory.{Memory, load, store, load-store_apart}
use dpdk_tools.Common.ByteOrder.{bswap}
use dpdk_tools.Common.Writes.{Writes, write_all, seen, value, untouched, load-write_all}
use dpdk_tools.Dpdkx.Proto.{be16, proto_igmp}
use dpdk_tools.Dpdkx.Mbuf.{Mbuf}
use dpdk_tools.Dpdkx.Mbuf.Build.{make_ipv4}
use dpdk_tools.Dpdkx.Device.Host.{Host}
use dpdk_tools.Dpdkx.Device.Sinks.{
  is_ipv4_mcast, ok, failed, bad_address, resource_unavailable_try_again, no_buffer_space,
}
use dpdk_tools.Dpdkx.Device.Mcast.Framed.{
  IsFramed, IsSummed, kept, mcast_report-IsFramed, mcast_report-IsSummed,
}
use dpdk_tools.Dpdkx.Device.Mcast.{
  ether_addr_for_ipv4_mcast, before_cksum, mcast_report, mcast_group, membership_report, Reported,
}

-- A report of one record, for a group: to the routers' group, on the link only.
pub record IsReport (m : Memory) (host : Host) (ip4addr type : ℕ) : Type 0 where
  routers_mac : load 6 0 m ≡ bswap 6 0x01005e000016
  routers : load 4 30 m ≡ bswap 4 0xe0000016
  source : load 4 26 m ≡ host.ip4addr
  time_to_live : load 1 22 m ≡ 1
  kind : load 1 38 m ≡ membership_report
  records : load 2 44 m ≡ be16 1
  change : load 1 46 m ≡ type
  group : load 4 50 m ≡ ip4addr

routers_mac_lem : ether_addr_for_ipv4_mcast 0xe0000016 ≡ bswap 6 0x01005e000016
unfolding ether_addr_for_ipv4_mcast bswap
routers_mac_lem = refl

routers_mac_fits : ether_addr_for_ipv4_mcast 0xe0000016 < 256 ^ 6
unfolding ether_addr_for_ipv4_mcast bswap
routers_mac_fits = omega arith

routers_fits : bswap 4 0xe0000016 < 256 ^ 4
unfolding bswap
routers_fits = omega arith

one_fits : be16 1 < 256 ^ 2
unfolding be16 bswap
one_fits = omega arith

is_ipv4_mcast_low : (ip : ℕ) → is_ipv4_mcast ip ≡ true → 224 ≤ ip / 16777216
unfolding is_ipv4_mcast
is_ipv4_mcast_low ip h = ground arith

is_ipv4_mcast_high : (ip : ℕ) → is_ipv4_mcast ip ≡ true → ip / 16777216 < 240
unfolding is_ipv4_mcast
is_ipv4_mcast_high ip h = ground arith

is_ipv4_mcast_out :
    (ip : ℕ) → is_ipv4_mcast ip ≡ false → (ip / 16777216 < 224) ⊎ (240 ≤ ip / 16777216)
unfolding is_ipv4_mcast
is_ipv4_mcast_out ip h = ground arith

module _ (raw_cksum : ℕ → ℕ → Memory → ℕ) (cksum : ℕ → Memory → ℕ) where
  mcast_report-IsReport :
      (host : Host) (ip4addr type : ℕ) (buffer : Mbuf)
      → host.ip4addr < 256 ^ 4
      → ip4addr < 256 ^ 4
      → type < 256
      → IsReport (mcast_report raw_cksum cksum host ip4addr type buffer).bytes host ip4addr type
  unfolding mcast_report write_all make_ipv4
  mcast_report-IsReport host ip4addr type buffer h i t = record {
    routers_mac =
        field 6 0 (ether_addr_for_ipv4_mcast 0xe0000016) refl routers_mac_fits (inl (omega arith))
          (inl (omega arith))
        ∙ routers_mac_lem;
    routers =
        field 4 30 (bswap 4 0xe0000016) refl routers_fits (inr (omega arith)) (inl (omega arith));
    source = field 4 26 host.ip4addr refl h (inr (omega arith)) (inl (omega arith));
    time_to_live = field 1 22 1 refl (omega arith) (inl (omega arith)) (inl (omega arith));
    kind = field 1 38 membership_report refl (omega arith) (inr (omega arith)) (inl (omega arith));
    records = field 2 44 (be16 1) refl one_fits (inr (omega arith)) (inr (omega arith));
    change = field 1 46 type refl (omega arith) (inr (omega arith)) (inr (omega arith));
    group = field 4 50 ip4addr refl i (inr (omega arith)) (inr (omega arith));
  }
    where
      b : Mbuf
      b = make_ipv4 proto_igmp 20 buffer

      fields : Writes
      fields = before_cksum host ip4addr type (load 1 14 b.bytes)

      m : Memory
      m = write_all fields b.bytes

      m' : Memory
      m' = store 2 24 0 (store 2 40 (65535 - raw_cksum 38 40 m) m)

      field :
          (w off v : ℕ)
          → seen w off untouched fields ≡ value v
          → v < 256 ^ w
          → (off + w ≤ 24) ⊎ (26 ≤ off)
          → (off + w ≤ 40) ⊎ (42 ≤ off)
          → load w off (mcast_report raw_cksum cksum host ip4addr type buffer).bytes ≡ v
      field w off v e lt apart apart' =
          kept host.ipv4_cksum_offload w off (cksum 14 m') m' apart
          ∙ load-store_apart w off 2 24 0 (store 2 40 (65535 - raw_cksum 38 40 m) m) apart
          ∙ load-store_apart w off 2 40 (65535 - raw_cksum 38 40 m) m apart'
          ∙ load-write_all w off v fields b.bytes e lt

  -- The first byte in memory is the last octet as numbers go, so it is the last octet of the group,
  -- not the first, that is tested.
  pub data Answered (host : Host) (enque : Mbuf → Bool) (ip4addr type : ℕ)
      : Option Mbuf → Reported → Type 0 where
    refused :
        (buffer : Option Mbuf)
        → 224 ≤ ip4addr / 16777216
        → ip4addr / 16777216 < 240
        → Answered host enque ip4addr type buffer
            (record { result = failed bad_address; report = none })
    no_buffer :
        (ip4addr / 16777216 < 224) ⊎ (240 ≤ ip4addr / 16777216)
        → Answered host enque ip4addr type none
            (record { result = failed no_buffer_space; report = none })
    reported :
        (buffer report : Mbuf)
        → (ip4addr / 16777216 < 224) ⊎ (240 ≤ ip4addr / 16777216)
        → IsFramed report
        → IsReport report.bytes host ip4addr type
        → IsSummed raw_cksum report.bytes
        → Answered host enque ip4addr type (some buffer) (record {
          result = if enque report then ok else failed resource_unavailable_try_again;
          report = some report;
        })

  -- A group whose last octet lies in 224 to 239 is refused; without a buffer `no_buffer_space` is
  -- returned; else a frame of 54 bytes is offered to the ring, and the caller hears whether it was
  -- taken. It is an IPv4 packet with a header of 24 bytes, the router alert among them, and a total
  -- length of 40, which holds a report of one record, with the group and the change. The report's
  -- checksum is what `rte_raw_cksum` makes of 40 bytes from its start, which is more than the frame
  -- holds. The IPv4 header's checksum is left out.
  pub mcast_group-Answered :
      (host : Host) (enque : Mbuf → Bool) (buffer : Option Mbuf) (ip4addr type : ℕ)
      → host.ip4addr < 256 ^ 4
      → ip4addr < 256 ^ 4
      → type < 256
      → Answered host enque ip4addr type buffer
          (mcast_group raw_cksum cksum host enque buffer ip4addr type)
  unfolding mcast_group
  mcast_group-Answered host enque none ip4addr type h i t =
      elim (Bool-cases (is_ipv4_mcast ip4addr)) [
        | inl tested ↦
            rw (tested, mcast_group)
              (refused none (is_ipv4_mcast_low ip4addr tested) (is_ipv4_mcast_high ip4addr tested))
        | inr passed ↦ rw (passed, mcast_group) (no_buffer (is_ipv4_mcast_out ip4addr passed))
      ]
  mcast_group-Answered host enque (some b) ip4addr type h i t =
      elim (Bool-cases (is_ipv4_mcast ip4addr)) [
        | inl tested ↦
            rw (tested, mcast_group)
              (refused (some b) (is_ipv4_mcast_low ip4addr tested)
                (is_ipv4_mcast_high ip4addr tested))
        | inr passed ↦
            rw (passed, mcast_group)
              (reported b (mcast_report raw_cksum cksum host ip4addr type b)
                (is_ipv4_mcast_out ip4addr passed)
                (mcast_report-IsFramed raw_cksum cksum host ip4addr type b)
                (mcast_report-IsReport host ip4addr type b h i t)
                (mcast_report-IsSummed raw_cksum cksum host ip4addr type b))
      ]
