-- ===== src/SockperfCli/Run/Laws.antt =====
-- `run` as a whole.

use dpdk_tools.Common.{
  ℕ, ◌≤◌, ◌<◌, ◌≡◌, refl, subst, ◌==◌, Bool, Bool-cases, inl, inr, List, [], ◌∷◌, none, some,
  Option-cases, arith,
}
use dpdk_tools.Dpdkx.Config.Sockets.Arranged.{AllArranged, IsArranged, cores_of}
use dpdk_tools.Common.Distinct.{Distinct}
use dpdk_tools.Dpdkx.Config.Sockets.{Span}
use dpdk_tools.Dpdkx.Device.Make.{DeviceConfig, Made, made, make_device}
use dpdk_tools.Dpdkx.Device.Make.Laws.{make_device-Constructed}
use dpdk_tools.SockperfCli.Run.Plan.{RunOptions, choose_socket, socket_or, settle_config}
use dpdk_tools.SockperfCli.Run.{
  back_is, Machine, HostDevice, with_made, on_socket, run, not_made, no_device, no_socket,
  bad_address, not_enough_cores, no_svc_mempool,
}
use dpdk_tools.SockperfCli.Run.Rest.{RunsWell, nothing, with_device-RunsWell}
use dpdk_tools.SockperfCli.Run.Fit.{
  back_is-some, FittedIf, IsFitted, settle_config-FittedIf, LaidOutIf, LaidOutIf-Constructed,
  laid_out-Room,
}

made-RunsWell :
    (m : Machine) (o : RunOptions) (cores : List ℕ) (n : ℕ) (last : Bool) (c : DeviceConfig)
    (r : Made)
    → IsArranged m.main_core cores n
    → back_is m.main_core cores ≡ some last
    → IsFitted n o.txq (c.rx.nb_queues, c.tx.nb_queues)
    → 1 ≤ c.tx_rings
    → o.txq < 65536
    → LaidOutIf c r
    → RunsWell m.main_core o (with_made m o cores r)
made-RunsWell m o cores n last c (made d) arranged back fitted rings small v =
    let (room, few) =
      laid_out-Room m.main_core o.txq n cores last c d arranged back fitted rings small v in
    with_device-RunsWell m o cores last d room few
made-RunsWell m o cores n last c failure arranged back fitted rings small v =
    nothing m.main_core o (not_made failure) refl

on_socket-RunsWell :
    (m : Machine) (o : RunOptions) (dev : HostDevice) (socket : Span)
    → IsArranged m.main_core (cores_of m.cores socket) socket.cores_n
    → 1 ≤ dev.config.tx_rings
    → o.txq < 65536
    → RunsWell m.main_core o (on_socket m o dev socket)
unfolding on_socket
on_socket-RunsWell m o dev socket arranged rings small =
    elim (Option-cases (settle_config dev.config dev.socket_id socket o.txq)) [
      | inl short ↦ rw (short, on_socket) (nothing m.main_core o not_enough_cores refl)
      | inr (c, settled) ↦
          let (fitted, same) =
            subst (FittedIf socket.cores_n o.txq dev.config) settled
              (settle_config-FittedIf dev.config dev.socket_id socket o.txq) in
          let (last, back) = back_is-some m.main_core (cores_of m.cores socket) (omega arith) in
          elim (Bool-cases m.svc_mempool) [
            | inr no_pool ↦
                rw (settled, no_pool, on_socket) (nothing m.main_core o no_svc_mempool refl)
            | inl pool ↦
                rw (settled, pool, on_socket)
                  (made-RunsWell m o (cores_of m.cores socket) socket.cores_n last c
                    (make_device m.driver c) arranged back fitted (omega arith) small
                    (LaidOutIf-Constructed (make_device-Constructed m.driver c)))
          ]
    ]

abbrev pub HaveRings : List HostDevice → Type 0
HaveRings [] = Unit
HaveRings (d ∷ ds) = (1 ≤ d.config.tx_rings) × HaveRings ds

socket_or-IsArranged :
    (main : ℕ) (cores : List ℕ) (first : Span) (id : ℕ) (ss : List Span)
    → IsArranged main (cores_of cores first) first.cores_n
    → AllArranged main cores ss
    → IsArranged main (cores_of cores (socket_or first id ss)) (socket_or first id ss).cores_n
unfolding socket_or
socket_or-IsArranged main cores first id [] f h = f
socket_or-IsArranged main cores first id (s ∷ ss) f (a, h) = elim (Bool-cases (s.socket_id == id)) [
  | inl here ↦ rw here a
  | inr elsewhere ↦ rw elsewhere (socket_or-IsArranged main cores first id ss f h)
]

found-RunsWell :
    (m : Machine) (o : RunOptions) (dev : HostDevice) (sockets : List Span)
    → AllArranged m.main_core m.cores sockets
    → 1 ≤ dev.config.tx_rings
    → o.txq < 65536
    → RunsWell m.main_core o (elim (choose_socket dev.socket_id sockets) [
      | none ↦ some (no_socket, [])
      | some socket ↦ on_socket m o dev socket
    ])
unfolding choose_socket
found-RunsWell m o dev [] arranged rings small = nothing m.main_core o no_socket refl
found-RunsWell m o dev (s ∷ ss) arranged rings small =
    on_socket-RunsWell m o dev (socket_or s dev.socket_id (s ∷ ss))
      (socket_or-IsArranged m.main_core m.cores s dev.socket_id (s ∷ ss) arranged.0 arranged) rings
      small

-- `run` on sockets whose cores are all different, the main core at the end.
pub run-RunsWell :
    (m : Machine) (o : RunOptions)
    → AllArranged m.main_core m.cores m.sockets
    → HaveRings m.devices
    → o.txq < 65536
    → RunsWell m.main_core o (run m o)
unfolding run
run-RunsWell m o arranged rings small = elim (Bool-cases m.destination_ok) [
  | inr bad ↦ rw (bad, run) (nothing m.main_core o bad_address refl)
  | inl good ↦ rw (good, run) (on_devices m.devices rings)
]
  where
    on_devices :
        (ds : List HostDevice)
        → HaveRings ds
        → RunsWell m.main_core o (elim ds [
          | [] ↦ some (no_device, [])
          | dev ∷ others ↦ elim (choose_socket dev.socket_id m.sockets) [
            | none ↦ some (no_socket, [])
            | some socket ↦ on_socket m o dev socket
          ]
        ])
    on_devices [] h = nothing m.main_core o no_device refl
    on_devices (d ∷ ds) (ring, h) = found-RunsWell m o d m.sockets arranged ring small
