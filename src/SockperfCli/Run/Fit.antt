-- ===== src/SockperfCli/Run/Fit.antt =====
-- The queues that the cores can serve, and a device that was made for them.
use mathlib.Core.Option
use dpdk_tools.Common.{
  ℕ, ◌+◌, ◌≤◌, ◌<◌, ◌≡◌, refl, ap, ◌==◌, Bool, List, [], ◌∷◌, ◌++◌, length, length-append, Option,
  none, some, arith,
}
use dpdk_tools.Dpdkx.Config.Sockets.Arranged.{IsArranged}
use dpdk_tools.Dpdkx.Config.Sockets.{Span, adjust_to_socket}
use dpdk_tools.Dpdkx.Device.Make.{DeviceConfig, Device, Made, made, Driver, iota}
use dpdk_tools.Dpdkx.Device.Make.Layout.{IsLaidOut, length-iota}
use dpdk_tools.Dpdkx.Device.Make.Laws.{Constructed, complete}
use dpdk_tools.SockperfCli.Run.Plan.{fit_queues, settle_config, with_queues}
use dpdk_tools.SockperfCli.Run.{back_is}
use dpdk_tools.SockperfCli.Run.Phases.{Room}

pub back_is-some :
    (main : ℕ) (cs : List ℕ) → 1 ≤ length cs → (last : Bool) × (back_is main cs ≡ some last)
unfolding back_is
back_is-some main [] h = absurd (omega arith)
back_is-some main (c ∷ []) h = (c == main, refl)
back_is-some main (c ∷ (d ∷ cs)) h = back_is-some main (d ∷ cs) (omega arith)

-- The queues that the cores can serve, with one for each direction if they are there.
abbrev pub IsFitted : ℕ → ℕ → ℕ × ℕ → Type 0
IsFitted cores_n txq (rx, tx) = (rx ≤ 1) × (1 ≤ tx) × (rx + tx ≤ cores_n) × (tx ≤ 1 + txq)

fit_queues-IsFitted :
    (cores_n rx_queues txq : ℕ) (q : ℕ × ℕ)
    → fit_queues cores_n rx_queues txq ≡ some q
    → IsFitted cores_n txq q
unfolding fit_queues
fit_queues-IsFitted cores_n rx_queues txq (rx, tx) h = ground arith

abbrev pub FittedIf : ℕ → ℕ → DeviceConfig → Option DeviceConfig → Type 0
FittedIf cores_n txq c none = Unit
FittedIf cores_n txq c (some c') =
    IsFitted cores_n txq (c'.rx.nb_queues, c'.tx.nb_queues) × (c'.tx_rings ≡ c.tx_rings)

FittedIf-map :
    (cores_n txq : ℕ) (c : DeviceConfig) (o : Option (ℕ × ℕ))
    → ((q : ℕ × ℕ) → o ≡ some q → IsFitted cores_n txq q)
    → FittedIf cores_n txq c (Option.map (λ (rx, tx). with_queues c rx tx) o)
FittedIf-map cores_n txq c none h = tt
FittedIf-map cores_n txq c (some q) h = (h q refl, refl)

pub settle_config-FittedIf :
    (c : DeviceConfig) (socket_id : ℕ) (socket : Span) (txq : ℕ)
    → FittedIf socket.cores_n txq c (settle_config c socket_id socket txq)
unfolding settle_config
settle_config-FittedIf c socket_id socket txq = FittedIf-map socket.cores_n txq c _ (
    fit_queues-IsFitted socket.cores_n
      (adjust_to_socket
        (record { rx_queues = c.rx.nb_queues; tx_queues = c.tx.nb_queues; socket_id = socket_id })
        socket).rx_queues
      txq)

abbrev pub LaidOutIf : DeviceConfig → Made → Type 0
LaidOutIf c (made d) = IsLaidOut c d
LaidOutIf c failure = Unit

pub LaidOutIf-Constructed :
    {drv : Driver} {c : DeviceConfig} {r : Made} → Constructed drv c r → LaidOutIf c r
LaidOutIf-Constructed (complete r t d up rx tx v e b) = v
LaidOutIf-Constructed _ = tt

length_parts : (xs ys : List ℕ) (n : ℕ) → xs ++ ys ≡ iota n 0 → length xs + length ys ≡ n
length_parts xs ys n e = omega (arith, ap length e, length-append xs ys, length-iota n 0)

pub laid_out-Room :
    (main txq n : ℕ) (cores : List ℕ) (last : Bool) (c : DeviceConfig) (d : Device)
    → IsArranged main cores n
    → back_is main cores ≡ some last
    → IsFitted n txq (c.rx.nb_queues, c.tx.nb_queues)
    → 1 ≤ c.tx_rings
    → txq < 65536
    → IsLaidOut c d
    → Room main cores last (length d.rx_jobs) (length d.tx_jobs) × (length d.rx_jobs ≤ 1)
laid_out-Room main txq n cores last c d (distinct, main_last, all) back (few, some_tx, fits, small)
      rings bound v =
    let rx : length d.rx_jobs + length d.flow_queues ≡ c.rx.nb_queues =
      length_parts d.rx_jobs d.flow_queues _ v.rx_queues in
    let tx : length (iota d.tx_queues 0) + length d.tx_jobs ≡ c.tx.nb_queues =
      length_parts (iota d.tx_queues 0) d.tx_jobs _ v.tx_queues in
    (
      record {
        distinct = distinct;
        main_last = main_last;
        back = back;
        some_sender = ground (arith, v.rings_used);
        fits = omega arith;
        small = omega arith;
      },
      omega arith,
    )
