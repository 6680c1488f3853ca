-- ===== src/SockperfCli/Stats.antt =====
-- sockperf_cli/stats.cpp and stats.hpp: where the arrivals of packets are recorded, and what is made
-- of them. The histograms are Boost's: here they are the lists of the durations they are given.
pub mod Slots
pub mod Sequence
pub mod Loop
use dpdk_tools.Common.{
  ℕ, zero, suc, ◌+◌, ◌-◌, ◌*◌, ◌/◌, ◌%◌, ◌^◌, ltb, ◌==◌, if◌then◌else◌, Bool, true, false, List, [],
  ◌∷◌, ◌++◌, length, get_elem?, set, Option, none, some, min,
}
use dpdk_tools.Sockperf.Seqn.{split_seqn}

-- `tx_timestamps`: the sequence numbers and the times of the bursts, in the order of the calls. The
-- caller writes the time into the slot it is given; none stands for a slot past the memory.
unfoldable pub tx_slot : ℕ → ℕ → ℕ → List (ℕ × ℕ) → Option (List (ℕ × ℕ))
tx_slot capacity seqn time slots =
    if ltb (length slots) capacity then some (slots ++ (seqn, time) ∷ []) else none

pub record PacketInfo : Type 0 where
  pub seqn : ℕ
  pub received : ℕ
  pub enqueued_rx : ℕ
  pub packet_size : ℕ

-- `memory` is what `memory_` points to.
pub record Statistics : Type 0 where
  pub txq_n : ℕ
  pub next_slot : ℕ
  pub slots : ℕ
  pub memory : ℕ → PacketInfo

unfoldable pub make_statistics : ℕ → ℕ → (ℕ → PacketInfo) → Statistics
make_statistics n_slots txq_n memory = record {
  txq_n = txq_n;
  next_slot = 0;
  slots = n_slots * txq_n % 2 ^ 64;
  memory = memory;
}

-- The index of the slot that `statistics::slot` gives; `size_ - 1` wraps at 0.
unfoldable pub slot : Statistics → ℕ
slot s = if ltb s.next_slot s.slots then s.next_slot else (s.slots + (2 ^ 64 - 1)) % 2 ^ 64

-- A call of `slot`, with what the caller writes into the slot.
unfoldable pub record_packet : PacketInfo → Statistics → Statistics
unfolding slot
record_packet info s = record s {
  next_slot = s.next_slot + 1;
  memory = λ i. if i == slot s then info else s.memory i;
}

-- `per_queue`; `prev` is `not_set` or an index.
pub record PerQueue : Type 0 where
  pub out_of_sequence : ℕ
  pub missing : ℕ
  pub prev : Option ℕ

-- The variables of the loop, and the durations that the histograms got.
pub record Tally : Type 0 where
  pub first : ℕ
  pub last : ℕ
  pub queues : List PerQueue
  pub rtts : List ℕ
  pub intervals : List ℕ

-- A difference of unsigned 64-bit numbers.
unfoldable pub minus64 : ℕ → ℕ → ℕ
minus64 a b = (a % 2 ^ 64 + (2 ^ 64 - b % 2 ^ 64)) % 2 ^ 64

-- `std::ranges::upper_bound` on sorted keys, and the entry before it.
unfoldable pub sent_before : ℕ → Option (ℕ × ℕ) → List (ℕ × ℕ) → Option (ℕ × ℕ)
sent_before key found [] = found
sent_before key found ((seqn, time) ∷ rest) =
    let later = sent_before key (some (seqn, time)) rest in if ltb key seqn then found else later

-- What a packet does to the counts of its queue: `expected` is one more than the highest number so
-- far. The counts have 64 bits.
unfoldable pub arrival : ℕ → ℕ → ℕ → PerQueue → PerQueue
unfolding minus64
arrival expected seqn i q =
    if expected == seqn
    then record q { prev = some i }
    else if ltb expected seqn
    then record q { missing = (q.missing + (seqn - expected)) % 2 ^ 64; prev = some i }
    else record q {
      out_of_sequence = (q.out_of_sequence + 1) % 2 ^ 64;
      missing = minus64 q.missing 1;
    }

abbrev is_set : Option ℕ → Bool
is_set none = false
is_set (some i) = true

module _ (packets : ℕ → PacketInfo) where
  -- The first packet of a queue only sets `prev`.
  unfoldable pub visit : ℕ → ℕ → Option ℕ → PerQueue → PerQueue
  unfolding arrival split_seqn
  visit seqn i none q = record q { prev = some i }
  visit seqn i (some prev) q = arrival ((split_seqn (packets prev).seqn).1 + 1) seqn i q

  -- One turn of the loop; `none` if it reads past a vector: the check lets `queue == stats.size()`
  -- pass, and a packet may precede the first burst that was recorded.
  module _ (timestamps : List (List (ℕ × ℕ))) where
    abbrev pub turn : ℕ → ℕ → ℕ → Option PerQueue → Option (List (ℕ × ℕ)) → Tally → Option Tally
    turn i queue seqn none ts t = none
    turn i queue seqn (some q) none t = none
    turn i queue seqn (some q) (some ts) t = elim (sent_before (minus64 seqn 1) none ts) [
      | none ↦ none
      | some sent ↦ some (record {
        first = if ltb (packets i).received (packets t.first).received then i else t.first;
        last = if ltb (packets t.last).received (packets i).received then i else t.last;
        queues = set t.queues queue (visit seqn i q.prev q);
        rtts = minus64 (packets i).enqueued_rx sent.1 ∷ t.rtts;
        intervals =
            if is_set q.prev
            then minus64 (packets i).received (packets (i - 1)).received ∷ t.intervals
            else t.intervals;
      })
    ]

    unfoldable pub count_packet : ℕ → Tally → Option Tally
    unfolding visit split_seqn sent_before minus64
    count_packet i t =
        let queue = (split_seqn (packets i).seqn).0 in
        let seqn = (split_seqn (packets i).seqn).1 in
        if ltb (length t.queues) queue
        then some t
        else turn i queue seqn (get_elem? t.queues queue) (get_elem? timestamps queue) t

    -- The loop, over the packets that are left.
    unfoldable pub count_packets : ℕ → ℕ → Tally → Option Tally
    unfolding count_packet
    count_packets zero i t = some t
    count_packets (suc left) i t = elim (count_packet i t) [
      | none ↦ none
      | some t' ↦ count_packets left (i + 1) t'
    ]

-- `collected_packets`
unfoldable pub collected : Statistics → ℕ
collected s = min s.next_slot s.slots

-- Packets per second, from the time between the first and the last: none if that is 0.
unfoldable pub packets_per_sec : ℕ → ℕ → Option ℕ
packets_per_sec received_packets ns =
    if ns == 0 then none else some (received_packets * 1000000000 % 2 ^ 64 / ns)
