-- ===== src/SockperfCli/TxJob/Laws.antt =====
-- `tx_job::process` of the client as a whole.
use dpdk_tools.Common.{
  ℕ, zero, suc, ◌+◌, ◌-◌, ◌%◌, ◌^◌, ◌≤◌, ◌<◌, ◌≡◌, refl, ap, ltb, ◌==◌, ==_iff, true, false,
  Bool-cases, ◌⊎◌, inl, inr, arith, List, [], ◌∷◌, ◌++◌, length, length-append, Option, some,
}
use dpdk_tools.Common.Memory.{Memory}
use dpdk_tools.SockperfCli.Stats.{tx_slot, minus64}
use dpdk_tools.SockperfCli.TxJob.{
  TxJob, Buffers, Sending, window, prepare_all, send_burst, open_slots, last_of, after_burst, turn,
  start, send_all, process,
}

length-window : (n i : ℕ) (b : Buffers) → length (window n i b) ≡ n
length-window zero i b = refl
length-window (suc n) i b = ap suc (length-window n (suc i) b)

-- The packets numbered so far are those that were transmitted and those that are left over, a burst
-- has room for more, the numbers go no further than a burst past the last, and there are no more slots
-- than packets that were transmitted.
record IsCounted (j : TxJob) (s : Sending) : Type 0 where
  numbered : s.seqn ≡ 1 + length s.transmitted + s.offset
  room : s.offset < j.burst_size
  ahead : s.seqn ≤ j.packets2send + j.burst_size
  slots : length s.timestamps ≤ length s.transmitted

module _ (phdr_cksum : ℕ → Memory → ℕ → ℕ) (udptcp_cksum : ℕ → Memory → ℕ)
    (alloc : ℕ → Option Buffers) (sent time : ℕ → ℕ) (unset : ℕ) where
  send_burst_total :
      (fuel k m : ℕ)
      → k ≤ m
      → m < k + fuel
      → 0 < sent m
      → (k' : ℕ) × (send_burst phdr_cksum udptcp_cksum alloc sent time unset fuel k ≡ some k')
        × (0 < sent k')
  unfolding send_burst
  send_burst_total zero k m low high pos = absurd (omega arith)
  send_burst_total (suc fuel) k m low high pos = elim (Bool-cases (sent k == 0)) [
    | inr some_sent ↦ (k, rw (some_sent, send_burst) refl, ground arith)
    | inl refused ↦ elim (Bool-cases (k == m)) [
      | inl here ↦ absurd (omega (arith, (==_iff _ _).0 refused, ap sent ((==_iff k m).0 here)))
      | inr later ↦
          let (k', e, p) = send_burst_total fuel (k + 1) m (ground arith) (omega arith) pos in
          (k', rw (refused, send_burst) e, p)
    ]
  ]

  -- What the NIC takes of a burst, when it takes any: all, or two packets or more.
  abbrev pub Takes : ℕ → Type 0
  Takes b = (k : ℕ) → 0 < sent k → (sent k ≤ b) × ((sent k ≡ b) ⊎ (2 ≤ sent k))

  open_slots-some :
      (j : TxJob) (s : Sending) (k : ℕ)
      → length s.timestamps + 2 ≤ j.timestamps_capacity
      → 0 < sent k
      → Takes j.burst_size
      → (slots : List (ℕ × ℕ)) × (open_slots phdr_cksum udptcp_cksum alloc sent time unset j s k
          ≡ some slots)
        × (length slots ≤ length s.timestamps + sent k)
  unfolding open_slots tx_slot
  open_slots-some j s k room pos takes = elim (Bool-cases (j.burst_size - sent k == 0)) [
    | inl whole ↦ (
      one,
      rw (first, whole) refl,
      omega (arith, pos, length-append s.timestamps ((first_seqn, time k) ∷ [])),
    )
    | inr part ↦ (
      one ++ (first_seqn, unset) ∷ [],
      rw (first, part, second) refl,
      omega (
        arith,
        two_or_more part (takes k pos).1,
        length-append s.timestamps ((first_seqn, time k) ∷ []),
        length-append one ((first_seqn, unset) ∷ []),
      ),
    )
  ]
    where
      first_seqn : ℕ
      first_seqn = minus64 (last_of phdr_cksum udptcp_cksum alloc sent time unset j s) j.burst_size

      one : List (ℕ × ℕ)
      one = s.timestamps ++ (first_seqn, time k) ∷ []

      first : ltb (length s.timestamps) j.timestamps_capacity ≡ true
      first = ground arith

      second : ltb (length one) j.timestamps_capacity ≡ true
      second = ground (arith, length-append s.timestamps ((first_seqn, time k) ∷ []))

      two_or_more :
          (j.burst_size - sent k == 0) ≡ false → (sent k ≡ j.burst_size) ⊎ (2 ≤ sent k) → 2 ≤ sent k
      two_or_more part (inl all) = absurd (ground arith)
      two_or_more part (inr two) = two

  turn-IsCounted :
      (wait : ℕ) (j : TxJob) (s : Sending) (fresh : Buffers) (m : ℕ)
      → alloc s.allocs ≡ some fresh
      → s.bursts ≤ m
      → m < s.bursts + wait
      → 0 < sent m
      → Takes j.burst_size
      → j.packets2send < j.timestamps_capacity
      → j.packets2send + j.burst_size < 2 ^ 64
      → s.seqn ≤ j.packets2send
      → IsCounted j s
      → (s' : Sending) × (turn phdr_cksum udptcp_cksum alloc sent time unset wait j s ≡ some s')
        × IsCounted j s'
        × (s.seqn < s'.seqn)
  unfolding turn
  turn-IsCounted wait j s fresh m a low high pos takes capacity small more c =
      let (k, e, p) = send_burst_total wait s.bursts m low high pos in
      let (slots, o, n) = open_slots-some j s k (omega (arith, c.numbered, c.slots)) p takes in
      let buffers : Buffers = prepare_all phdr_cksum udptcp_cksum alloc sent time unset j s fresh in
      let l : length (window (sent k) 0 buffers) ≡ sent k = length-window (sent k) 0 buffers in
      let t = length-append s.transmitted (window (sent k) 0 buffers) in
      let q : (s.seqn + (j.burst_size - s.offset)) % 2 ^ 64 ≡ s.seqn + (j.burst_size - s.offset) =
        omega arith in
      (
        after_burst phdr_cksum udptcp_cksum alloc sent time unset j s buffers k slots,
        rw (a, turn) (rw (e, turn) (rw (o, turn) refl)),
        record {
          numbered = omega (arith, c.numbered, c.room, t, l, q, (takes k p).0);
          room = omega (arith, p, c.room);
          ahead = omega (arith, q);
          slots = omega (arith, n, t, l, c.slots);
        },
        omega (arith, c.room, q),
      )

  send_all-IsCounted :
      (wait fuel : ℕ) (j : TxJob) (s : Sending)
      → ((n : ℕ) → (fresh : Buffers) × (alloc n ≡ some fresh))
      → ((k : ℕ) → (m : ℕ) × (k ≤ m) × (m < k + wait) × (0 < sent m))
      → Takes j.burst_size
      → j.packets2send < j.timestamps_capacity
      → j.packets2send + j.burst_size < 2 ^ 64
      → IsCounted j s
      → j.packets2send + 1 - s.seqn < fuel
      → (s' : Sending) × (send_all phdr_cksum udptcp_cksum alloc sent time unset wait fuel j s
          ≡ some s')
        × IsCounted j s'
        × (j.packets2send < s'.seqn)
  unfolding send_all
  send_all-IsCounted wait zero j s a b takes capacity small c h = absurd (omega arith)
  send_all-IsCounted wait (suc fuel) j s a b takes capacity small c h =
      elim (Bool-cases (ltb s.seqn ((j.packets2send + 1) % 2 ^ 64))) [
        | inr over ↦ (s, rw (over, send_all) refl, c, bounded over)
        | inl more ↦
            let (fresh, got) = a s.allocs in
            let (m, low, high, pos) = b s.bursts in
            let (s', e, c', p) =
              turn-IsCounted wait j s fresh m got low high pos takes capacity small (below more)
                c in
            let (r, e', c'', q) =
              send_all-IsCounted wait fuel j s' a b takes capacity small c'
                (omega (arith, p, below more)) in
            (r, rw (more, send_all) (rw (e, send_all) e'), c'', q)
      ]
    where
      whole : (j.packets2send + 1) % 2 ^ 64 ≡ j.packets2send + 1
      whole = omega (arith, c.room)

      below : ltb s.seqn ((j.packets2send + 1) % 2 ^ 64) ≡ true → s.seqn ≤ j.packets2send
      below more = ground (arith, whole)

      bounded : ltb s.seqn ((j.packets2send + 1) % 2 ^ 64) ≡ false → j.packets2send < s.seqn
      bounded over = ground (arith, whole)

  -- With a pool that does not run dry, slots for more bursts than there are packets to send, and
  -- numbers that stay below 2 ^ 64 by a burst; and a NIC that among any `wait` calls takes some
  -- packets, and whenever it does takes all of the burst or two packets or more: the job ends, on fuel
  -- above the number of packets to send, and no slot lies past the memory. Its last number is above
  -- the number of packets to send by a burst at most, and one more than the packets transmitted and
  -- those of the last burst left over, which are fewer than a burst; and it has used no more slots
  -- than it has transmitted packets.
  pub process_total :
      (wait fuel : ℕ) (j : TxJob) (buffers : Buffers)
      → 0 < j.burst_size
      → ((n : ℕ) → (fresh : Buffers) × (alloc n ≡ some fresh))
      → ((k : ℕ) → (m : ℕ) × (k ≤ m) × (m < k + wait) × (0 < sent m))
      → Takes j.burst_size
      → j.packets2send < j.timestamps_capacity
      → j.packets2send + j.burst_size < 2 ^ 64
      → j.packets2send < fuel
      → (r : Sending) × (process phdr_cksum udptcp_cksum alloc sent time unset wait fuel j buffers
          ≡ some r)
        × (j.packets2send < r.seqn)
        × (r.seqn ≤ j.packets2send + j.burst_size)
        × (r.seqn ≡ 1 + length r.transmitted + r.offset)
        × (r.offset < j.burst_size)
        × (length r.timestamps ≤ length r.transmitted)
  unfolding process
  process_total wait fuel j buffers pos a b takes capacity small h =
      let (r, e, c, q) =
        send_all-IsCounted wait fuel j (start buffers) a b takes capacity small
          (record { numbered = refl; room = pos; ahead = omega arith; slots = omega arith })
          (omega arith) in
      (r, e, q, c.ahead, c.numbered, c.room, c.slots)
