-- ===== src/Dpdkx/Device/RxJob/Shares.antt =====
-- What is to become of the packets of a burst, each by itself.
use dpdk_tools.Common.{
  ℕ, ◌≤◌, length, if◌then◌else◌, Bool, true, false, List, [], ◌∷◌, ◌++◌, map, Option, none, some,
  arith,
}
use dpdk_tools.Dpdkx.Mbuf.{Mbuf}
use dpdk_tools.Dpdkx.Device.Sinks.{Sinks}
use dpdk_tools.Dpdkx.Device.RxJob.{
  RxJob, Handed, Kind, broken, udp, kind, udp_dst_port, Run, headers_set,
}
use dpdk_tools.Dpdkx.Device.RxJob.Find.{channel_for}

-- The packets handed over, each with its channel, in the order of the calls.
abbrev pub deliveries : List Handed → List (ℕ × Mbuf)
deliveries [] = []
deliveries (h ∷ hs) = map (λ p. (h.channel, p)) h.packets ++ deliveries hs

abbrev pub of_run : Run → List (ℕ × Mbuf)
of_run none = []
of_run (some (ch, ps)) = map (λ p. (ch, p)) ps

-- The receiver of a packet: the channel of its port, if it is a sound UDP packet.
abbrev receiver_by : Kind → Sinks → Mbuf → Option ℕ
receiver_by udp sinks p = channel_for sinks (udp_dst_port p)
receiver_by _ sinks p = none

abbrev pub receiver : Sinks → Mbuf → Option ℕ
receiver sinks p = receiver_by (kind p) sinks p

abbrev pub is_broken : Kind → Bool
is_broken broken = true
is_broken _ = false

-- What is to be freed, what is to be delivered with the header lengths filled in, and what is left.
unfoldable pub to_free : List Mbuf → List Mbuf
to_free [] = []
to_free (p ∷ ps) = let rest = to_free ps in if is_broken (kind p) then p ∷ rest else rest

unfoldable pub to_deliver : Sinks → List Mbuf → List (ℕ × Mbuf)
to_deliver sinks [] = []
to_deliver sinks (p ∷ ps) =
    let rest = to_deliver sinks ps in
    elim (receiver sinks p) [ none ↦ rest | some ch ↦ (ch, headers_set p) ∷ rest ]

unfoldable pub to_leave : Sinks → List Mbuf → List Mbuf
to_leave sinks [] = []
to_leave sinks (p ∷ ps) =
    let rest = to_leave sinks ps in
    elim (receiver sinks p) [
      | none ↦ if is_broken (kind p) then rest else p ∷ rest
      | some ch ↦ rest
    ]

pub to_leave-length : (j : RxJob) (ps : List Mbuf) → length (to_leave j.shared.sinks ps) ≤ length ps
unfolding to_leave
to_leave-length j [] = omega arith
to_leave-length j (p ∷ ps) = ground (arith, to_leave-length j ps)
