-- ===== src/Examples/Devices.antt =====
-- The theorems on queues, ports and receivers at concrete inputs.
use dpdk_tools.Common.{
  ℕ, ◌-◌, ◌≤◌, ◌<◌, ◌≡◌, refl, ◌==◌, if◌then◌else◌, true, [], ◌∷◌, some, none, arith,
}
use dpdk_tools.Common.ByteOrder.{bswap}
use dpdk_tools.Dpdkx.Device.TxQueues.{TxQueues, service_tx, tx_ring, no_txq}
use dpdk_tools.Dpdkx.Device.TxQueues.Laws.{ring_bounds}
use dpdk_tools.Dpdkx.Device.Sinks.{
  Endpoint, SinkEntry, ok, Receivers, Environment, rss, is_ipv4_mcast, attach_loop, find_sink,
  attach_rx, detach_rx,
}
use dpdk_tools.Dpdkx.Device.Sinks.Laws.{prefer, attach_loop-find_sink, detach-attach}

-- Four queues, two of them behind rings, one of these for the service.
abbrev queues : TxQueues
queues = record { tx_queues = 2; per_core_queue = λ core. no_txq; svc_tx_n = 1; tx_jobs = 2 }

ring_bounds_example :
    ((i : ℕ) × (service_tx queues 9 ≡ some i) × (2 - 1 ≤ i) × (i < 2))
    × ((i : ℕ) × (tx_ring queues 9 ≡ some i) × (i < 2))
ring_bounds_example = ring_bounds queues 9 (omega arith) (omega arith)

abbrev endpoint : Endpoint
endpoint = record { ip = 0x0100000a; port = 513 }

abbrev entry : SinkEntry
entry = record { endpoint = endpoint; channel = some 7 }

abbrev other_entry : SinkEntry
other_entry = record { endpoint = endpoint; channel = some 8 }

attach_loop-find_sink_example :
    ((attach_loop [] (entry ∷ []) endpoint (some 8)).0 ≡ ok)
    × (find_sink (attach_loop [] (entry ∷ []) endpoint (some 8)).1 513 ≡ (
        if 513 == 513
        then prefer (find_sink (entry ∷ []) 513) other_entry
        else find_sink (entry ∷ []) 513))
attach_loop-find_sink_example = attach_loop-find_sink (entry ∷ []) endpoint 8 513

abbrev calm : Environment
calm = record { make_flow = λ ep. true; destroy = λ n ep. true; send = ok; contenders = [] }

abbrev nobody : Receivers
nobody = record { sinks = []; fqueues = []; joined = λ ip. none }

detach-attach_example :
    ((attach_rx calm endpoint (some 7) rss nobody).0 ≡ ok)
    × (detach_rx calm endpoint (some 7) (attach_rx calm endpoint (some 7) rss nobody).1
        ≡ (ok, nobody))
unfolding is_ipv4_mcast find_sink bswap
detach-attach_example = detach-attach calm nobody endpoint 7 refl refl refl
