-- ===== src/Dpdkx/Device/TxJob/Laws.antt =====
-- What reaches the NIC, in which order, and what a partial burst does to the rest.
use mathlib.Core.List.{append_assoc, append-nil}
use dpdk_tools.Common.{
  ℕ, zero, suc, ◌+◌, ◌-◌, ◌≤◌, ◌<◌, ◌≡◌, ◌∙◌, refl, sym, ap, ◌⊎◌, inl, inr, List, [], ◌∷◌, ◌++◌,
  take, drop, length, arith, length-append, length-take, length-drop, take-append-drop, Bool-cases,
  ◌==◌, ◌||◌, not,
}
use dpdk_tools.Dpdkx.Device.TxJob.{TxJob, max_pkt_burst, copy_backward, refill, transmit, process}

-- The packets that the job holds.
abbrev pub pending : TxJob → List ℕ
pending s = take s.n s.buffers

pub record IsValid (s : TxJob) : Type 0 where
  pub within : s.n ≤ s.burst_size
  pub burst : 0 < s.burst_size
  pub capped : s.burst_size ≤ max_pkt_burst
  pub array : length s.buffers ≡ max_pkt_burst

take-take :
    (m n : ℕ) (xs ys : List ℕ) → n ≤ m → m ≤ length xs → take n (take m xs ++ ys) ≡ take n xs
take-take m zero xs ys h k = refl
take-take zero (suc n) xs ys h k = absurd (omega arith)
take-take (suc m) (suc n) [] ys h k = absurd (omega arith)
take-take (suc m) (suc n) (x ∷ xs) ys h k =
    ap (◌∷◌ x) (take-take m n xs ys (omega arith) (omega arith))

take_over : (xs ys : List ℕ) (n : ℕ) → n ≡ length xs → take n (xs ++ ys) ≡ xs
take_over [] ys zero e = refl
take_over [] ys (suc n) e = absurd (omega arith)
take_over (x ∷ xs) ys zero e = absurd (omega arith)
take_over (x ∷ xs) ys (suc n) e = ap (◌∷◌ x) (take_over xs ys n (omega arith))

take_filled :
    (xs ys zs : List ℕ) (n : ℕ) → n ≡ length xs + length ys → take n (xs ++ (ys ++ zs)) ≡ xs ++ ys
take_filled xs ys zs n e =
    ap (take n) (sym (append_assoc xs ys zs))
    ∙ take_over (xs ++ ys) zs n (omega (arith, length-append xs ys))

-- Taking packets from the ring keeps their order.
refill-pending :
    (s : TxJob) (ring : List ℕ)
    → IsValid s
    → pending (refill s ring).0 ++ (refill s ring).1 ≡ pending s ++ ring
unfolding refill
refill-pending s ring v = elim (Bool-cases (s.burst_size == s.n)) [
  | inl full ↦ rw (full, refill) refl
  | inr room ↦
      rw (room, refill)
        (ap (λ xs. xs ++ drop (s.burst_size - s.n) ring)
            (take_filled (pending s) got _ _ (omega (arith, length-take s.n s.buffers, v)))
          ∙ append_assoc (pending s) got _
          ∙ ap (◌++◌ (pending s)) (take-append-drop (s.burst_size - s.n) ring))
]
  where
    got : List ℕ
    got = take (s.burst_size - s.n) ring

refill-IsValid :
    (s : TxJob) (ring : List ℕ)
    → IsValid s
    → IsValid (refill s ring).0 × (s.n ≤ (refill s ring).0.n)
unfolding refill
refill-IsValid s ring v = elim (Bool-cases (s.burst_size == s.n)) [
  | inl full ↦ rw (full, refill) (v, omega arith)
  | inr room ↦
      rw (room, refill)
        (
          record {
            within = omega (arith, length-take (s.burst_size - s.n) ring, v.within);
            burst = v.burst;
            capped = v.capped;
            array = omega (
              arith,
              v,
              length-append (pending s) (got ++ drop (s.n + length got) s.buffers),
              length-append got (drop (s.n + length got) s.buffers),
              length-take s.n s.buffers,
              length-take (s.burst_size - s.n) ring,
              length-drop (s.n + length got) s.buffers,
            );
          },
          omega arith,
        )
]
  where
    got : List ℕ
    got = take (s.burst_size - s.n) ring

length-copy_backward :
    (sent n : ℕ) (xs : List ℕ)
    → sent ≤ n
    → n ≤ length xs
    → length (copy_backward sent n xs) ≡ length xs
unfolding copy_backward
length-copy_backward sent n xs h k = omega (
  arith,
  length-append (take (n - sent) xs) (take sent xs ++ drop n xs),
  length-append (take sent xs) (drop n xs),
  length-take (n - sent) xs,
  length-take sent xs,
  length-drop n xs,
)

transmit-IsValid :
    (accept : ℕ → ℕ) (s : TxJob) (ring : List ℕ)
    → accept s.n ≤ s.n
    → IsValid s
    → IsValid (transmit accept s ring).job
unfolding transmit
transmit-IsValid accept s ring h v = record {
  within = omega (arith, v.within);
  burst = v.burst;
  capped = v.capped;
  array =
      ground (arith, v.array, v.within, v.capped, length-copy_backward (accept s.n) s.n s.buffers);
}

-- Where the NIC takes no more than it is offered, a step keeps the job well formed: it holds no more
-- packets than a burst, a burst fits the array, and the array keeps its size.
pub process-IsValid :
    (accept : ℕ → ℕ) (s : TxJob) (ring : List ℕ)
    → ((k : ℕ) → accept k ≤ k)
    → IsValid s
    → IsValid (process accept s ring).job
unfolding process
process-IsValid accept s ring h v = ground (
  arith,
  refill-IsValid s ring v,
  transmit-IsValid accept (refill s ring).0 (refill s ring).1 (h (refill s ring).0.n),
)

transmit_whole :
    (accept : ℕ → ℕ) (t : TxJob) (ring : List ℕ)
    → (accept t.n ≡ t.n) ⊎ (accept t.n ≡ 0)
    → let r = transmit accept t ring in
      r.transmitted ++ (pending r.job ++ r.ring) ≡ pending t ++ ring
unfolding transmit
transmit_whole accept t ring (inl e) =
    let rest : t.n - accept t.n ≡ 0 = omega (arith, e) in ground (arith, e, rest)
transmit_whole accept t ring (inr e) = ground (arith, e)

prefix_of_prefix : (k n : ℕ) (xs : List ℕ) → k ≤ n → n ≤ length xs → take k (take n xs) ≡ take k xs
prefix_of_prefix k n xs h l = ap (take k) (sym (append-nil (take n xs))) ∙ take-take n k xs [] h l

-- However many of the packets offered the NIC takes, the first that many of those held go out; and
-- what the job then holds is again the first of those, as many as were not sent. So after a partial
-- burst packets that went out are held to be sent again, and the last ones are lost.
pub transmit_partial :
    (accept : ℕ → ℕ) (s : TxJob) (ring : List ℕ)
    → IsValid s
    → accept s.n ≤ s.n
    → let r = transmit accept s ring in
      (r.transmitted ≡ take (accept s.n) (pending s))
      × (pending r.job ≡ take (s.n - accept s.n) (pending s))
unfolding transmit copy_backward
transmit_partial accept s ring v h =
    (sym (prefix_of_prefix (accept s.n) s.n s.buffers h fits), held)
  where
    fits : s.n ≤ length s.buffers
    fits = omega (arith, v)

    again : take (s.n - accept s.n) (pending s) ≡ take (s.n - accept s.n) s.buffers
    again = prefix_of_prefix (s.n - accept s.n) s.n s.buffers (omega arith) fits

    moved :
        take (s.n - accept s.n) (copy_backward (accept s.n) s.n s.buffers)
        ≡ take (s.n - accept s.n) s.buffers
    moved =
        take_over (take (s.n - accept s.n) s.buffers) _ (s.n - accept s.n)
          (omega (arith, length-take (s.n - accept s.n) s.buffers, fits))

    held : pending (transmit accept s ring).job ≡ take (s.n - accept s.n) (pending s)
    held = ground (arith, again, moved)

-- Where the NIC takes all or nothing of what it is offered, no packet is lost, made up or overtaken:
-- what is transmitted, held and left in the ring is, in this order, what was held and in the ring.
pub process_order :
    (accept : ℕ → ℕ) (s : TxJob) (ring : List ℕ)
    → IsValid s
    → ((k : ℕ) → (accept k ≡ k) ⊎ (accept k ≡ 0))
    → let r = process accept s ring in
      r.transmitted ++ (pending r.job ++ r.ring) ≡ pending s ++ ring
unfolding process
process_order accept s ring v all =
    elim (Bool-cases (s.burst_size == s.n || not ((refill s ring).0.n == 0))) [
      | inl send ↦ rw (send, process) (whole (refill s ring).0 ∙ refill-pending s ring v)
      | inr hold ↦ rw (hold, process) (refill-pending s ring v)
    ]
  where
    whole :
        (t : TxJob)
        → let r = transmit accept t (refill s ring).1 in
          r.transmitted ++ (pending r.job ++ r.ring) ≡ pending t ++ (refill s ring).1
    whole t = transmit_whole accept t (refill s ring).1 (all t.n)
