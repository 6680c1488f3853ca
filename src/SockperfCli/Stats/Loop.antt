-- ===== src/SockperfCli/Stats/Loop.antt =====
-- The loop of `statistics::process`, one queue at a time.
use mathlib.Core.Option.{none-ne-some, some-injective}
use dpdk_tools.Common.{
  ℕ, zero, suc, ◌+◌, ◌%◌, ◌^◌, ◌≤◌, ◌≡◌, ◌<◌, ◌⊎◌, ◌≢◌, refl, sym, ap, ◌∙◌, ltb, ◌==◌,
  if◌then◌else◌, true, false, Bool-cases, Option-cases, List, [], ◌∷◌, length, get_elem?,
  get_elem?_past, set, Option, none, some, arith, inl, inr,
}
use dpdk_tools.Sockperf.Seqn.{split_seqn}
use dpdk_tools.SockperfCli.Stats.{
  PacketInfo, PerQueue, Tally, visit, count_packet, count_packets, turn, sent_before, minus64,
}
use dpdk_tools.SockperfCli.Stats.Sequence.{
  seqn_of, seqn_of_lt, visit_all, visit_all_balanced, visit_all_missing_lt,
}

get_elem?-set_same :
    (qs : List PerQueue) (i : ℕ) (v q : PerQueue)
    → get_elem? qs i ≡ some q
    → get_elem? (set qs i v) i ≡ some v
get_elem?-set_same [] i v q h = absurd (none-ne-some q h)
get_elem?-set_same (x ∷ qs) zero v q h = refl
get_elem?-set_same (x ∷ qs) (suc i) v q h = get_elem?-set_same qs i v q h

get_elem?-set_other :
    (qs : List PerQueue) (i k : ℕ) (v : PerQueue)
    → k ≢ i
    → get_elem? (set qs i v) k ≡ get_elem? qs k
get_elem?-set_other [] i k v h = refl
get_elem?-set_other (x ∷ qs) zero zero v h = absurd (h refl)
get_elem?-set_other (x ∷ qs) zero (suc k) v h = refl
get_elem?-set_other (x ∷ qs) (suc i) zero v h = refl
get_elem?-set_other (x ∷ qs) (suc i) (suc k) v h = get_elem?-set_other qs i k v (λ e. h (ap suc e))

module _ (packets : ℕ → PacketInfo) (timestamps : List (List (ℕ × ℕ))) where
  abbrev pub queue_of : ℕ → ℕ
  queue_of i = (split_seqn (packets i).seqn).0

  -- The packets of one queue among `n` from index `i` on.
  unfoldable pub of_queue : ℕ → ℕ → ℕ → List ℕ
  of_queue queue i zero = []
  of_queue queue i (suc n) =
      let rest = of_queue queue (i + 1) n in if queue_of i == queue then i ∷ rest else rest

  abbrev after : ℕ → ℕ → PerQueue → PerQueue
  after queue i q = if queue_of i == queue then visit packets (seqn_of packets i) i q.prev q else q

  turn_queue :
      (i queue : ℕ) (o : Option PerQueue) (ts : Option (List (ℕ × ℕ))) (t t' : Tally) (q : PerQueue)
      → get_elem? t.queues (queue_of i) ≡ o
      → turn packets timestamps i (queue_of i) (seqn_of packets i) o ts t ≡ some t'
      → get_elem? t.queues queue ≡ some q
      → get_elem? t'.queues queue ≡ some (after queue i q)
  turn_queue i queue none ts t t' q at e h = absurd (none-ne-some t' e)
  turn_queue i queue (some q₀) none t t' q at e h = absurd (none-ne-some t' e)
  turn_queue i queue (some q₀) (some ts) t t' q at e h =
      elim (Option-cases (sent_before (minus64 (seqn_of packets i) 1) none ts)) [
        | inl early ↦ absurd (none-ne-some t' (rw (early, turn) at e))
        | inr (s, found) ↦
            ap (λ (r : Tally). get_elem? r.queues queue)
              (sym (some-injective _ t' (rw (found, turn) at e)))
            ∙ updated
      ]
    where
      v : PerQueue
      v = visit packets (seqn_of packets i) i q₀.prev q₀

      here : (queue_of i == queue) ≡ true → queue_of i ≡ queue
      here same = ground arith

      elsewhere : (queue_of i == queue) ≡ false → queue ≢ queue_of i
      elsewhere other x = ground arith

      updated : get_elem? (set t.queues (queue_of i) v) queue ≡ some (after queue i q)
      updated = elim (Bool-cases (queue_of i == queue)) [
        | inl same ↦ rw same (
            ap (get_elem? (set t.queues (queue_of i) v)) (sym (here same))
            ∙ get_elem?-set_same t.queues (queue_of i) v q₀ at
            ∙ ap (λ (r : PerQueue). some (visit packets (seqn_of packets i) i r.prev r))
                (some-injective q₀ q (sym at ∙ ap (get_elem? t.queues) (here same) ∙ h)))
        | inr other ↦
            rw other
              (get_elem?-set_other t.queues (queue_of i) queue v (λ x. elsewhere other x) ∙ h)
      ]

  count_packet_queue :
      (i queue : ℕ) (t t' : Tally) (q : PerQueue)
      → count_packet packets timestamps i t ≡ some t'
      → get_elem? t.queues queue ≡ some q
      → get_elem? t'.queues queue ≡ some (after queue i q)
  unfolding count_packet
  count_packet_queue i queue t t' q e h = elim (Bool-cases (ltb (length t.queues) (queue_of i))) [
    | inr within ↦
        turn_queue i queue (get_elem? t.queues (queue_of i)) (get_elem? timestamps (queue_of i)) t
          t' q refl (rw (within, count_packet) at e) h
    | inl past ↦
        ap (λ (r : Tally). get_elem? r.queues queue)
          (sym (some-injective t t' (rw (past, count_packet) at e)))
        ∙ h
        ∙ rw (other past) refl
  ]
    where
      inside : length t.queues ≤ queue → some q ≡ none
      inside p = sym h ∙ get_elem?_past t.queues queue p

      other : ltb (length t.queues) (queue_of i) ≡ true → (queue_of i == queue) ≡ false
      other past = elim (Bool-cases (queue_of i == queue)) [
        | inr no_match ↦ no_match
        | inl match' ↦ absurd (none-ne-some q (sym (inside (ground arith))))
      ]

  count_packets_queue :
      (n i queue : ℕ) (t t' : Tally) (q : PerQueue)
      → count_packets packets timestamps n i t ≡ some t'
      → get_elem? t.queues queue ≡ some q
      → get_elem? t'.queues queue ≡ some (visit_all packets (of_queue queue i n) q)
  unfolding count_packets of_queue visit_all
  count_packets_queue zero i queue t t' q e h =
      ap (λ (r : Tally). get_elem? r.queues queue) (sym (some-injective t t' e)) ∙ h
  count_packets_queue (suc n) i queue t t' q e h =
      elim (Option-cases (count_packet packets timestamps i t)) [
        | inl stuck ↦ absurd (none-ne-some t' (rw (stuck, count_packets) at e))
        | inr (t₁, went) ↦
            count_packets_queue n (i + 1) queue t₁ t' (after queue i q)
              (rw (went, count_packets) at e) (count_packet_queue i queue t t₁ q went h)
            ∙ elim (Bool-cases (queue_of i == queue)) [
              | inl same ↦ rw (same, of_queue) refl
              | inr other ↦ rw (other, of_queue) refl
            ]
      ]

  -- Two numbers that are the same modulo 2 ^ 64, where the first may have wrapped once.
  exact_or_wrapped :
      (m k f j : ℕ)
      → m < 2 ^ 64
      → k + 2 ^ 28 ≤ 2 ^ 64
      → f < 2 ^ 28
      → j < 2 ^ 28
      → (m + k + f) % 2 ^ 64 ≡ (j + 1) % 2 ^ 64
      → (m + k + f ≡ j + 1) ⊎ (m + k + f ≡ j + 1 + 2 ^ 64)
  exact_or_wrapped m k f j hm hk hf hj e = elim (Bool-cases (ltb (m + k + f) (2 ^ 64))) [
    | inl low ↦ inl (ground arith)
    | inr high ↦ inr (ground arith)
  ]

  -- If the loop reads no vector past its end, then for a queue whose counts were fresh and that has
  -- packets, in whatever order: the number counted as missing and the number of the queue's packets
  -- add up to the span of sequence numbers from that of the first of them to that of `prev`, so that a
  -- late packet takes back a loss that was counted before; or the number counted as missing has passed
  -- below zero, to 2 ^ 64 less what it is short of. The source asserts that the latter does not happen.
  pub count_packets_balanced :
      (n i queue f : ℕ) (is : List ℕ) (t t' : Tally) (q : PerQueue)
      → count_packets packets timestamps n i t ≡ some t'
      → get_elem? t.queues queue ≡ some q
      → q.prev ≡ none
      → q.missing ≡ 0
      → of_queue queue i n ≡ f ∷ is
      → length (f ∷ is) + 2 ^ 28 ≤ 2 ^ 64
      → (r : PerQueue) × (j : ℕ) × (get_elem? t'.queues queue ≡ some r)
        × (r.prev ≡ some j)
        × ((r.missing + length (f ∷ is) + seqn_of packets f ≡ seqn_of packets j + 1)
            ⊎ (r.missing + length (f ∷ is) + seqn_of packets f ≡ seqn_of packets j + 1 + 2 ^ 64))
  count_packets_balanced n i queue f is t t' q e h new fresh own few =
      let (j, at, sum) = visit_all_balanced packets f is q new fresh in
      (
        visit_all packets (f ∷ is) q,
        j,
        count_packets_queue n i queue t t' q e h ∙ ap (λ l. some (visit_all packets l q)) own,
        at,
        exact_or_wrapped _ _ _ _ (visit_all_missing_lt packets (f ∷ is) q (omega (arith, fresh)))
            few (seqn_of_lt packets f) (seqn_of_lt packets j) sum,
      )
