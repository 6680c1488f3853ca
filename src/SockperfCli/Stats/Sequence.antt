-- ===== src/SockperfCli/Stats/Sequence.antt =====
-- The counts of missing packets that the loop of `statistics::process` keeps for each queue.
use dpdk_tools.Common.{
  ℕ, ◌+◌, ◌-◌, ◌%◌, ◌^◌, ◌<◌, ◌≡◌, refl, sym, ap, subst, ◌∙◌, ltb, ◌==◌, Bool-cases, List, [], ◌∷◌,
  length, Option, none, some, arith, inl, inr,
}
use dpdk_tools.Common.Bits.{bit_and_mask}
use dpdk_tools.Sockperf.Seqn.{split_seqn}
use dpdk_tools.SockperfCli.Stats.{PacketInfo, PerQueue, arrival, visit, minus64}

step_next :
    (m k f j i : ℕ)
    → j + 1 ≡ i
    → (m + k + f) % 2 ^ 64 ≡ (j + 1) % 2 ^ 64
    → (m + (k + 1) + f) % 2 ^ 64 ≡ (i + 1) % 2 ^ 64
step_next m k f j i e b = omega arith

step_gap :
    (m k f j i : ℕ)
    → j + 1 < i
    → (m + k + f) % 2 ^ 64 ≡ (j + 1) % 2 ^ 64
    → ((m + (i - (j + 1))) % 2 ^ 64 + (k + 1) + f) % 2 ^ 64 ≡ (i + 1) % 2 ^ 64
step_gap m k f j i h b = omega arith

step_late :
    (m k f j : ℕ)
    → (m + k + f) % 2 ^ 64 ≡ (j + 1) % 2 ^ 64
    → (minus64 m 1 + (k + 1) + f) % 2 ^ 64 ≡ (j + 1) % 2 ^ 64
unfolding minus64
step_late m k f j b = omega arith

module _ (packets : ℕ → PacketInfo) where
  abbrev pub seqn_of : ℕ → ℕ
  seqn_of i = (split_seqn (packets i).seqn).1

  -- The packets of one queue, by their indices.
  unfoldable pub visit_all : List ℕ → PerQueue → PerQueue
  unfolding visit
  visit_all [] q = q
  visit_all (i ∷ is) q = visit_all is (visit packets (seqn_of i) i q.prev q)

  pub seqn_of_lt : (i : ℕ) → seqn_of i < 2 ^ 28
  unfolding split_seqn
  seqn_of_lt i = omega (arith, bit_and_mask 28 (packets i).seqn)

  visit_missing_lt :
      (seqn i : ℕ) (o : Option ℕ) (q : PerQueue)
      → q.missing < 2 ^ 64
      → (visit packets seqn i o q).missing < 2 ^ 64
  unfolding visit arrival minus64
  visit_missing_lt seqn i none q h = h
  visit_missing_lt seqn i (some j) q h = ground arith

  pub visit_all_missing_lt :
      (is : List ℕ) (q : PerQueue) → q.missing < 2 ^ 64 → (visit_all is q).missing < 2 ^ 64
  unfolding visit_all
  visit_all_missing_lt [] q h = h
  visit_all_missing_lt (i ∷ is) q h =
      visit_all_missing_lt is (visit packets (seqn_of i) i q.prev q)
        (visit_missing_lt (seqn_of i) i q.prev q h)

  -- The packets from `f` on: the number missing and the number that came add up to the numbers from
  -- that of `f` to that of `prev`.
  abbrev Balanced : ℕ → ℕ → PerQueue → Type 0
  Balanced f k q =
      (j : ℕ) × (q.prev ≡ some j)
      × ((q.missing + k + seqn_of f) % 2 ^ 64 ≡ (seqn_of j + 1) % 2 ^ 64)

  Balanced-arrival :
      (f k j i : ℕ) (q : PerQueue)
      → q.prev ≡ some j
      → (q.missing + k + seqn_of f) % 2 ^ 64 ≡ (seqn_of j + 1) % 2 ^ 64
      → Balanced f (k + 1) (arrival (seqn_of j + 1) (seqn_of i) i q)
  unfolding arrival minus64
  Balanced-arrival f k j i q e b = elim (Bool-cases (seqn_of j + 1 == seqn_of i)) [
    | inl next ↦
        rw (next, arrival)
          (i, refl, step_next q.missing k (seqn_of f) (seqn_of j) (seqn_of i) (ground arith) b)
    | inr jump ↦ elim (Bool-cases (ltb (seqn_of j + 1) (seqn_of i))) [
      | inl gap ↦
          rw (jump, gap, arrival)
            (i, refl, step_gap q.missing k (seqn_of f) (seqn_of j) (seqn_of i) (ground arith) b)
      | inr late ↦ rw (jump, late, arrival) (j, e, step_late q.missing k (seqn_of f) (seqn_of j) b)
    ]
  ]

  Balanced-visit_all :
      (f k : ℕ) (is : List ℕ) (q : PerQueue)
      → Balanced f k q
      → Balanced f (k + length is) (visit_all is q)
  unfolding visit_all visit
  Balanced-visit_all f k [] q (j, e, b) = (j, e, ap (λ n. n % 2 ^ 64) (omega arith) ∙ b)
  Balanced-visit_all f k (i ∷ is) q (j, e, b) =
      subst (λ r. Balanced f (k + length (i ∷ is)) (visit_all is r))
        (sym (ap (λ o. visit packets (seqn_of i) i o q) e))
        (subst (λ n. Balanced f n (visit_all is (arrival (seqn_of j + 1) (seqn_of i) i q)))
          (omega arith)
          (Balanced-visit_all f (k + 1) is (arrival (seqn_of j + 1) (seqn_of i) i q)
            (Balanced-arrival f k j i q e b)))

  -- A queue that got packets, in whatever order: the number counted as missing and the number that
  -- came add up, modulo 2 ^ 64, to the span of sequence numbers from that of the first packet to that of
  -- `prev`. So a late packet takes back a loss that was counted before.
  pub visit_all_balanced :
      (f : ℕ) (is : List ℕ) (q : PerQueue)
      → q.prev ≡ none
      → q.missing ≡ 0
      → (j : ℕ) × ((visit_all (f ∷ is) q).prev ≡ some j)
        × (((visit_all (f ∷ is) q).missing + length (f ∷ is) + seqn_of f) % 2 ^ 64
            ≡ (seqn_of j + 1) % 2 ^ 64)
  unfolding visit_all visit
  visit_all_balanced f is q new zero' =
      subst (λ r. Balanced f (length (f ∷ is)) (visit_all is r))
        (sym (ap (λ o. visit packets (seqn_of f) f o q) new))
        (subst (λ n. Balanced f n (visit_all is (record q { prev = some f }))) (omega arith)
          (Balanced-visit_all f 1 is (record q { prev = some f })
            (f, refl, ap (λ n. n % 2 ^ 64) (omega arith))))
