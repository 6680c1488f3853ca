-- ===== src/Dpdkx/Device/TxQueues/Laws.antt =====
-- Which queue or ring a caller gets.
use dpdk_tools.Common.{
  ℕ, zero, suc, ◌+◌, ◌-◌, ◌%◌, ◌≤◌, ◌<◌, ◌≡◌, refl, if◌then◌else◌, ◌==◌, some, arith, List, [], ◌∷◌,
}
use native.Mathlib.Nat.{mod-lt}
use dpdk_tools.Dpdkx.Device.TxQueues.{
  TxQueues, init, tx_queue, service_tx, tx_ring, no_txq, setup, tx_burst, ring_enque,
}

-- No core has a queue of its own in the table.
abbrev pub Unassigned : TxQueues → Type 0
Unassigned d = (core : ℕ) → d.per_core_queue core ≡ no_txq

-- The queues that calls from the given cores hand out in turn.
pub assign : TxQueues → List ℕ → List ℕ
assign d [] = []
assign d (core ∷ cores) = (tx_queue d core).0 ∷ assign (tx_queue d core).1 cores

pub count_down : ℕ → List ℕ → List ℕ
count_down n [] = []
count_down zero (core ∷ cores) = no_txq ∷ count_down zero cores
count_down (suc n) (core ∷ cores) = n ∷ count_down n cores

-- Whatever cores call, a core that calls again included, the free queues are handed out from the
-- last to queue 0, each once, and then every call gets `no_txq`: the table of cores stays empty.
assign-count_down :
    (n : ℕ) (d : TxQueues) (cores : List ℕ)
    → Unassigned d
    → d.tx_queues ≡ n
    → assign d cores ≡ count_down n cores
unfolding assign count_down tx_queue
assign-count_down n d [] free e = refl
assign-count_down zero d (core ∷ cores) free e =
    ground (arith, free core, assign-count_down zero d cores free)
assign-count_down (suc n) d (core ∷ cores) free e =
    ground
      (arith, free core, assign-count_down n (record d { tx_queues = d.tx_queues - 1 }) cores free)

-- On a device with service rings, no more of them than rings, a service ring is one of the last
-- `svc_tx_n` rings, and a ring is one of the rings: no index divides by zero.
pub ring_bounds :
    (d : TxQueues) (hint : ℕ)
    → d.svc_tx_n ≤ d.tx_jobs
    → 0 < d.svc_tx_n
    → ((i : ℕ) × (service_tx d hint ≡ some i) × (d.tx_jobs - d.svc_tx_n ≤ i) × (i < d.tx_jobs))
      × ((i : ℕ) × (tx_ring d hint ≡ some i) × (i < d.tx_jobs))
unfolding service_tx tx_ring
ring_bounds d hint h pos = (
  (
    hint % d.svc_tx_n + d.tx_jobs - d.svc_tx_n,
    ground arith,
    omega arith,
    omega (arith, mod-lt hint pos),
  ),
  (hint % d.tx_jobs, ground arith, mod-lt hint (omega arith)),
)

-- A device starts with no more service rings than rings, with as many free queues as are not behind
-- rings, and with an empty table.
pub init_lem :
    (nb_queues tx_rings svc_tx_n : ℕ)
    → let d = init nb_queues tx_rings svc_tx_n in
      Unassigned d
      × (d.svc_tx_n ≤ d.tx_jobs)
      × (d.tx_queues + d.tx_jobs ≡ nb_queues)
      × (d.tx_jobs ≤ tx_rings)
unfolding init
init_lem nb_queues tx_rings svc_tx_n = (λ core. refl, ground arith, ground arith, ground arith)

-- Where the table of cores is empty, fewer than 65535 queues are free and there is a ring, the first
-- packets of a sink set it to a queue of the device's own while one is free, and to the first ring
-- from then on.
pub setup_lem :
    (d : TxQueues) (core : ℕ)
    → Unassigned d
    → d.tx_queues < no_txq
    → 0 < d.tx_jobs
    → setup d core
      ≡ some (
          if d.tx_queues == 0
          then (ring_enque 0, d)
          else (tx_burst (d.tx_queues - 1), record d { tx_queues = d.tx_queues - 1 }))
unfolding setup
setup_lem d core free small rings = ground (arith, free core)
