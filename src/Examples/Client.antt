-- ===== src/Examples/Client.antt =====
-- The theorems on the client at concrete inputs.
use mathlib.Core.List.{Perm}
use dpdk_tools.Common.{
  ℕ, zero, suc, ◌+◌, ◌-◌, ◌%◌, ◌^◌, ◌≤◌, ◌<◌, ◌≡◌, ◌⊎◌, inl, inr, Bool-cases, if◌then◌else◌, ◌==◌,
  refl, true, false, List, [], ◌∷◌, map, length, get_elem?, Option, some, none, arith, min,
}
use dpdk_tools.Dpdkx.Mbuf.{Mbuf}
use dpdk_tools.Sockperf.Seqn.{is_warmup, warmup}
use dpdk_tools.SockperfCli.Stats.{count_packets, Tally, PacketInfo, Statistics, PerQueue, collected}
use dpdk_tools.SockperfCli.Stats.Slots.{record_all, record_all-collected}
use dpdk_tools.SockperfCli.Stats.Sequence.{seqn_of}
use dpdk_tools.SockperfCli.Stats.Loop.{of_queue, count_packets_balanced}
use dpdk_tools.SockperfCli.Channel.{MessageInfo, SockperfChannel, enqueue}
use dpdk_tools.SockperfCli.Channel.Laws.{AllMeasured, prepared, info, enqueue-prepared}
use dpdk_tools.SockperfCli.TxJob.{TxJob, Buffers, Sending, window, move_up, process}
use dpdk_tools.SockperfCli.TxJob.Leftover.{move_up-Perm}
use dpdk_tools.SockperfCli.TxJob.Laws.{process_total}
use dpdk_tools.SockperfCli.Latency.{LatencyTest, rtt, latency_test}

abbrev packet_info : ℕ → PacketInfo
packet_info n = record { seqn = n; received = n; enqueued_rx = n; packet_size = 60 }

abbrev two_slots : Statistics
two_slots = record { txq_n = 1; next_slot = 0; slots = 2; memory = λ i. packet_info 0 }

abbrev three_packets : List PacketInfo
three_packets = packet_info 1 ∷ packet_info 2 ∷ packet_info 3 ∷ []

-- The third of three packets stands in the second of two slots.
record_all-collected_example :
    (get_elem? three_packets 2 ≡ some ((record_all three_packets two_slots).memory (min 2 (2 - 1))))
    × (collected (record_all three_packets two_slots) ≡ min (length three_packets) 2)
    × (min 2 (2 - 1) < collected (record_all three_packets two_slots))
record_all-collected_example =
    record_all-collected three_packets two_slots 2 (omega arith) (omega arith) refl (omega arith)
      (inr refl)

-- The numbers 1, 4, 2, 5 of one queue: 3 is missing.
abbrev numbers : ℕ → PacketInfo
numbers zero = packet_info 1
numbers (suc zero) = packet_info 4
numbers (suc (suc zero)) = packet_info 2
numbers (suc (suc (suc i))) = packet_info 5

abbrev no_packet : PerQueue
no_packet = record { out_of_sequence = 0; missing = 0; prev = none }

abbrev fresh_tally : Tally
fresh_tally = record { first = 0; last = 3; queues = no_packet ∷ []; rtts = []; intervals = [] }

abbrev final_tally : Tally
final_tally = record {
  first = 0;
  last = 3;
  queues = record { out_of_sequence = 1; missing = 1; prev = some 3 } ∷ [];
  rtts = 5 ∷ 2 ∷ 4 ∷ 1 ∷ [];
  intervals = 3 ∷ 18446744073709551614 ∷ 3 ∷ [];
}

abbrev bursts : List (List (ℕ × ℕ))
bursts = ((0, 0) ∷ []) ∷ []

count_packets_balanced_example :
    (r : PerQueue) × (j : ℕ) × (get_elem? final_tally.queues 0 ≡ some r)
    × (r.prev ≡ some j)
    × ((r.missing + 4 + seqn_of numbers 0 ≡ seqn_of numbers j + 1)
        ⊎ (r.missing + 4 + seqn_of numbers 0 ≡ seqn_of numbers j + 1 + 2 ^ 64))
unfolding count_packets of_queue
count_packets_balanced_example =
    count_packets_balanced numbers bursts 4 0 0 0 (1 ∷ 2 ∷ 3 ∷ []) fresh_tally final_tally no_packet
      refl refl refl refl refl (omega arith)

abbrev buffer : Mbuf
buffer = record {
  bytes = λ i. 0;
  data_len = 0;
  pkt_len = 0;
  l2_len = 0;
  l3_len = 0;
  l4_len = 0;
  ol_flags = 0;
  nb_segs = 1;
}

abbrev client_channel : SockperfChannel
client_channel = record {
  packets2send = 100;
  stats = two_slots;
  last_warmup_message = none;
  jobs_stopped = false;
}

abbrev sent_packets : List (ℕ × Mbuf)
sent_packets = (2, buffer) ∷ (3, buffer) ∷ []

sent_packets-AllMeasured : AllMeasured sent_packets
unfolding is_warmup
sent_packets-AllMeasured = ((omega arith, refl), ((omega arith, refl), tt))

enqueue-prepared_example :
    enqueue 1000
      (λ b. none)
      9
      (map (prepared (λ at m flags. 0) (λ at m. 0) 0 20 1000 (λ b. none) 9) sent_packets)
      client_channel
    ≡ record client_channel {
      stats =
          record_all
            (map (info (λ at m flags. 0) (λ at m. 0) 0 20 1000 (λ b. none) 9) sent_packets)
            two_slots;
    }
enqueue-prepared_example =
    enqueue-prepared (λ at m flags. 0) (λ at m. 0) 0 20 1000 (λ b. none) 9 sent_packets
      client_channel (omega arith) (omega arith) sent_packets-AllMeasured (omega arith)

abbrev numbered : Buffers
numbered i = record buffer { data_len = i }

-- Three of five packets are sent.
move_up-Perm_example : Perm (window 2 0 (move_up 2 3 numbered)) (window 2 3 numbered)
move_up-Perm_example = move_up-Perm 2 3 numbered

abbrev tx_job : TxJob
tx_job = record {
  queue_id = 0;
  burst_size = 4;
  timestamps_capacity = 100;
  packets2send = 10;
  ol_flags = 0;
  payload_size = 20;
}

-- The NIC takes three packets at every other call, and none in between.
abbrev in_turns : ℕ → ℕ
in_turns k = if k % 2 == 0 then 0 else 3

in_turns-some : (k : ℕ) → (m : ℕ) × (k ≤ m) × (m < k + 2) × (0 < in_turns m)
in_turns-some k = elim (Bool-cases (k % 2 == 0)) [
  | inl even ↦ (k + 1, omega arith, omega arith, ground arith)
  | inr odd ↦ (k, omega arith, omega arith, ground arith)
]

in_turns-Takes : (k : ℕ) → 0 < in_turns k → (in_turns k ≤ 4) × ((in_turns k ≡ 4) ⊎ (2 ≤ in_turns k))
in_turns-Takes k h = elim (Bool-cases (k % 2 == 0)) [
  | inl even ↦ absurd (ground arith)
  | inr odd ↦ (ground arith, inr (ground arith))
]

process_total_example :
    (r : Sending) × (process
        (λ at m flags. 0)
        (λ at m. 0)
        (λ n. some numbered)
        in_turns
        (λ k. k)
        0
        2
        11
        tx_job
        numbered
      ≡ some r)
    × (10 < r.seqn)
    × (r.seqn ≤ 14)
    × (r.seqn ≡ 1 + length r.transmitted + r.offset)
    × (r.offset < 4)
    × (length r.timestamps ≤ length r.transmitted)
process_total_example =
    process_total (λ at m flags. 0) (λ at m. 0) (λ n. some numbered) in_turns (λ k. k) 0 2 11 tx_job
      numbered (omega arith) (λ n. (numbered, refl)) in_turns-some in_turns-Takes (omega arith)
      (omega arith) (omega arith)

abbrev latency : LatencyTest
latency = record {
  packets2send = 2;
  ol_flags = 0;
  payload_size = 20;
  disable_clock = true;
  clock_enabled = false;
  clock_hz = 1000;
  rx_timestamp_offload = false;
  send_on_timestamp_offload = false;
  registered = none;
}

-- The state is the number of packets sent, and the reply to the last one is there at once.
abbrev last_reply : ℕ → Option MessageInfo
last_reply w = some (record { seqn = warmup w; received_ts = 0; enqueued_ts = 7 })

latency_test_replies :
    latency_test
      (λ w. false)
      last_reply
      (λ ms w. w)
      (λ at m flags. 0)
      (λ at m. 0)
      (λ w. (some buffer, w))
      (λ b at w. (true, suc w))
      (λ w. 3)
      3
      latency
      0
    ≡ some (rtt 4 ∷ rtt 4 ∷ [], 2)
unfolding latency_test warmup
latency_test_replies = refl
