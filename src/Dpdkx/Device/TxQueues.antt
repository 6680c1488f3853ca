-- ===== src/Dpdkx/Device/TxQueues.antt =====
-- How `device` hands out its tx queues and picks a ring (`tx_queue`, `service_tx`, `tx_ring`), and how
-- a `sink` sets itself up (dpdkx/sink.cpp).
pub mod Laws
use mathlib.Core.Option
use dpdk_tools.Common.{
  ℕ, ◌+◌, ◌-◌, ◌%◌, ltb, ◌==◌, if◌then◌else◌, Bool, not, ◌&&◌, Option, none, some,
}

abbrev pub no_txq : ℕ
no_txq = 65535

-- `tx_queues_`, `per_core_queue_`, `config_.svc_tx_n` and the number of `tx_jobs_`.
pub record TxQueues : Type 0 where
  pub tx_queues : ℕ
  pub per_core_queue : ℕ → ℕ
  pub svc_tx_n : ℕ
  pub tx_jobs : ℕ

-- The queues of a device with `nb_queues` tx queues and `tx_rings` rings, as its constructor sets them.
unfoldable pub init : ℕ → ℕ → ℕ → TxQueues
init nb_queues tx_rings svc_tx_n =
    let free = if ltb nb_queues tx_rings then 0 else nb_queues - tx_rings in
    let jobs = nb_queues - free in
    record {
      tx_queues = free;
      per_core_queue = λ core. no_txq;
      svc_tx_n = if ltb jobs svc_tx_n then jobs else svc_tx_n;
      tx_jobs = jobs;
    }

unfoldable pub tx_queue : TxQueues → ℕ → ℕ × TxQueues
tx_queue d core =
    let res = d.per_core_queue core in
    if res == no_txq && not (d.tx_queues == 0)
    then (d.tx_queues - 1, record d { tx_queues = d.tx_queues - 1 })
    else (res, d)

-- The index into `tx_jobs_`; `none` stands for a division by zero.
unfoldable pub service_tx : TxQueues → ℕ → Option ℕ
service_tx d hint =
    if d.svc_tx_n == 0 then none else some (hint % d.svc_tx_n + d.tx_jobs - d.svc_tx_n)

unfoldable pub tx_ring : TxQueues → ℕ → Option ℕ
tx_ring d hint = if d.tx_jobs == 0 then none else some (hint % d.tx_jobs)

-- `ptr_` and `id_` of a `sink`.
pub data Sink : Type 0 where
  setup_sink : Sink
  tx_burst : ℕ → Sink
  ring_enque : ℕ → Sink

-- What the first `enque` of a sink on a core makes of it; `none` where there is no ring to take.
unfoldable pub setup : TxQueues → ℕ → Option (Sink × TxQueues)
unfolding tx_queue tx_ring
setup d core =
    let (txq, d') = tx_queue d core in
    if txq == no_txq
    then Option.map (λ ring. (ring_enque ring, d')) (tx_ring d' 0)
    else some (tx_burst txq, d')
