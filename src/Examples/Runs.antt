-- ===== src/Examples/Runs.antt =====
-- The theorems on jobs, bursts and the sinks that serve them at concrete inputs.
use dpdk_tools.Common.{
  ℕ, zero, suc, ◌-◌, ◌≤◌, ◌≡◌, inl, refl, ltb, leb, ◌==◌, if◌then◌else◌, Bool, true, not, ◌&&◌,
  List, [], ◌∷◌, ◌++◌, some, none, arith, take,
}
use dpdk_tools.Common.Memory.{load}
use dpdk_tools.Common.ByteOrder.{bswap}
use dpdk_tools.Dpdkx.Proto.{be16, ether_type_ipv4}
use dpdk_tools.Dpdkx.Mbuf.{Mbuf}
use dpdk_tools.Dpdkx.Mbuf.L2.{update_l2size, skip_tags, is_tag}
use dpdk_tools.Dpdkx.Mbuf.Build.{make_udp}
use dpdk_tools.Dpdkx.Device.RxJob.Built.{make_udp-kind}
use dpdk_tools.Dpdkx.Jobs.{JobState, busy, idling, done, is_empty, run_loop, run_jobs_once}
use dpdk_tools.Dpdkx.Jobs.Laws.{visit, run_jobs_once-visit}
use dpdk_tools.Dpdkx.Jobs.FlowQueue.{run_flow_queue}
use dpdk_tools.Dpdkx.Jobs.Loop.{Stopped, run_loop-Stopped}
use dpdk_tools.Dpdkx.Device.TxJob
use dpdk_tools.Dpdkx.Device.TxJob.{TxJob, transmit}
use dpdk_tools.Dpdkx.Device.TxJob.Laws.{
  IsValid, pending, process-IsValid, process_order, transmit_partial,
}
use dpdk_tools.Dpdkx.Device.Sinks.{SinkEntry, find_sink}
use dpdk_tools.Dpdkx.Device.RxJob.{
  Shared, RxJob, headers_set, find_rx_channel, dispatch, kind, udp, dgram_len,
}
use dpdk_tools.Dpdkx.Device.RxJob.Find.{Stable, Found, find_rx_channel-Found}
use dpdk_tools.Dpdkx.Device.RxJob.Bursts.{Dispatched, dispatch-Dispatched}
use dpdk_tools.Dpdkx.Device.RxJob.Shares.{to_leave-length}

-- A job that idles for ever and counts its calls, in jobs that are stopped at the seventh.
abbrev idle_step : ℕ → JobState × ℕ
idle_step n = (idling, suc n)

run_loop-Stopped_example :
    Stopped idle_step
      (λ s. ltb s 7)
      (λ s. s)
      (λ s. refl)
      7
      3
      0
      (run_loop idle_step (λ s. ltb s 7) 8 0 0)
run_loop-Stopped_example =
    run_loop-Stopped idle_step (λ s. ltb s 7) (λ s. s) (λ s. refl) 7 true (λ s. refl) (λ e s. refl)
      8 0 0 (omega arith) (omega arith)

-- Job `j` is done once `j` calls were made, and idles before the second call.
abbrev ask : ℕ → ℕ → JobState × ℕ
ask j calls = (if j == calls then done else if calls == 0 then idling else busy, suc calls)

abbrev three_jobs : List ℕ
three_jobs = 5 ∷ 1 ∷ 7 ∷ []

abbrev visited : List ℕ × Bool × ℕ
visited = visit ask three_jobs 0

run_jobs_once-visit_example : run_jobs_once ask three_jobs 0 ≡ (
  visited.0,
  if not (is_empty three_jobs) && is_empty visited.0
      then done
      else if visited.1
      then busy
      else idling,
  visited.2,
)
run_jobs_once-visit_example = run_jobs_once-visit ask three_jobs 0

abbrev repeat : ℕ → List ℕ → List ℕ
repeat zero xs = xs
repeat (suc n) xs = 0 ∷ repeat n xs

-- Two packets are held, of bursts of four.
abbrev two_held : TxJob
two_held = record { n = 2; burst_size = 4; buffers = 11 ∷ 12 ∷ repeat 254 [] }

two_held-IsValid : IsValid two_held
two_held-IsValid = record {
  within = omega arith;
  burst = omega arith;
  capped = omega arith;
  array = refl;
}

abbrev take_one : ℕ → ℕ
take_one zero = 0
take_one (suc k) = 1

take_one_le : (k : ℕ) → take_one k ≤ k
take_one_le zero = omega arith
take_one_le (suc k) = omega arith

process-IsValid_example : IsValid (TxJob.process take_one two_held (13 ∷ [])).job
process-IsValid_example = process-IsValid take_one two_held (13 ∷ []) take_one_le two_held-IsValid

process_order_example :
    let r = TxJob.process (λ k. k) two_held (13 ∷ 14 ∷ 15 ∷ []) in
    r.transmitted ++ (pending r.job ++ r.ring) ≡ pending two_held ++ (13 ∷ 14 ∷ 15 ∷ [])
process_order_example =
    process_order (λ k. k) two_held (13 ∷ 14 ∷ 15 ∷ []) two_held-IsValid (λ k. inl refl)

transmit_partial_example :
    let r = transmit take_one two_held [] in
    (r.transmitted ≡ take 1 (pending two_held)) × (pending r.job ≡ take (2 - 1) (pending two_held))
transmit_partial_example = transmit_partial take_one two_held [] two_held-IsValid (omega arith)

abbrev no_sink : SinkEntry
no_sink = record { endpoint = record { ip = 0; port = 0 }; channel = none }

abbrev sink_513 : SinkEntry
sink_513 = record { endpoint = record { ip = 1; port = 513 }; channel = some 7 }

abbrev published : Shared
published = record { sinks = no_sink ∷ sink_513 ∷ []; address = 1 }

abbrev rx_job : RxJob
rx_job = record {
  last = 0;
  checkpoint = 3;
  reload_checkpoint = 100;
  burst_size = 32;
  shared = published;
}

rx_job-Stable : Stable rx_job
unfolding find_sink
rx_job-Stable = record {
  first = no_sink;
  first_at = refl;
  first_channel = refl;
  cached = no_sink;
  cached_at = refl;
  cached_first = refl;
  fresh = omega arith;
  few = omega arith;
}

find_rx_channel-Found_example : Found 513 rx_job (find_rx_channel published 513 rx_job)
find_rx_channel-Found_example = find_rx_channel-Found published 513 rx_job rx_job-Stable

-- A UDP packet for port 513 as the host loads it, behind an Ethernet and an IPv4 header.
abbrev bytes_of : List (ℕ × ℕ) → ℕ → ℕ
bytes_of [] i = 0
bytes_of ((at, v) ∷ vs) i = if at == i then v else bytes_of vs i

abbrev datagram : Mbuf
datagram = record {
  bytes = bytes_of ((12, 8) ∷ (14, 0x45) ∷ (23, 17) ∷ (36, 1) ∷ (37, 2) ∷ (38, 0) ∷ (39, 8) ∷ []);
  data_len = 60;
  pkt_len = 60;
  l2_len = 14;
  l3_len = 0;
  l4_len = 0;
  ol_flags = 0;
  nb_segs = 1;
}

abbrev truncated_datagram : Mbuf
truncated_datagram = record datagram { data_len = 40 }

abbrev burst : List Mbuf
burst = datagram ∷ truncated_datagram ∷ datagram ∷ []

dispatch-Dispatched_example : Dispatched rx_job none burst (dispatch published none 3 burst rx_job)
dispatch-Dispatched_example =
    dispatch-Dispatched published none 3 burst rx_job rx_job-Stable
      (omega (arith, to_leave-length rx_job burst))

abbrev begun : Mbuf
begun = make_udp 100 datagram

make_udp-kind_example :
    (update_l2size 128 1 begun ≡ some (be16 ether_type_ipv4, begun))
    × (kind begun ≡ udp)
    × (begun.data_len ≡ 142)
    × (bswap 2 (load 2 16 begun.bytes) ≡ 128)
    × (dgram_len begun ≡ 108)
    × (begun.bytes 50 ≡ 0)
make_udp-kind_example = make_udp-kind 128 0 100 datagram 50 (omega arith) (omega arith)

-- Jobs stop at poll 5, the queue has its channel from poll 2 on, and a burst comes at poll 3.
abbrev polled_burst : ℕ → List Mbuf
polled_burst n = if n == 3 then datagram ∷ truncated_datagram ∷ [] else []

run_flow_queue_test :
    run_flow_queue 128 61 (λ n. ltb n 5) (λ n. leb 2 n) polled_burst 9
    ≡ some ((headers_set datagram ∷ headers_set truncated_datagram ∷ []) ∷ [])
unfolding run_flow_queue update_l2size skip_tags is_tag be16 bswap load
run_flow_queue_test = refl
