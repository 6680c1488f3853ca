-- ===== src/Dpdkx/Clock/Laws.antt =====
-- How long the retries wait, what the conversions of time lose, and where the timer wraps.
use native.Mathlib.Nat.{
  div-add-mod, mod-lt, mod-eq_of_lt, div-lt_iff_lt-mul, lt_of_mul-lt-mul_right, div-mul-le_self,
}
use dpdk_tools.Common.{
  ℕ, zero, suc, ◌+◌, ◌-◌, ◌*◌, ◌/◌, ◌%◌, ◌^◌, ◌≤◌, ◌<◌, ◌≡◌, ◌≢◌, ◌⊎◌, inl, inr, refl, ap, arith,
  Bool, true, false, Bool-cases, some, ◌&&◌, ◌==◌, ==_iff, subst, sym,
}
use dpdk_tools.Dpdkx.Clock.{
  ns_per_s, default_timeout, retry, mul_div, timestamp_fix, ticks_of_ns, ns_timer, LinkPoll,
  poll_link, link_status, estimate_clock_freq,
}

-- For a timeout that an `int` of waits can count, the waits are of 100 ms at most, there is at least
-- one, together they last as long as the timeout, and one wait less would not.
pub retry_covers :
    (timeout : ℕ)
    → timeout < 2 ^ 31
    → ((retry timeout).0 ≤ default_timeout)
      × (1 ≤ (retry timeout).1)
      × (timeout ≤ (retry timeout).0 * (retry timeout).1)
      × ((retry timeout).0 * ((retry timeout).1 - 1) < timeout ⊎ ((retry timeout).1 ≡ 1))
unfolding retry
retry_covers timeout h = ground arith

mul_div-floor :
    (x n d : ℕ)
    → 0 < d
    → x * n < 2 ^ 128
    → x * n < 2 ^ 64 * d
    → (mul_div x n d * d ≤ x * n) × (x * n < mul_div x n d * d + d)
unfolding mul_div
mul_div-floor x n d pos wide narrow =
    omega (arith, exact, ap (λ (t : ℕ). t * d) exact, div-add-mod (x * n) d, mod-lt (x * n) pos)
  where
    small : x * n / d < 2 ^ 64
    small = (div-lt_iff_lt-mul pos).1 narrow

    exact : x * n % 2 ^ 128 / d % 2 ^ 64 ≡ x * n / d
    exact = rw (mod-eq_of_lt wide) (mod-eq_of_lt small)

-- A time in nanoseconds, turned into ticks of the device's clock and back, where no result needs
-- more than 64 bits: it never grows, and loses less than one tick and one nanosecond (both sides
-- are multiplied by the frequency).
pub timestamp_roundtrip :
    (hz ns : ℕ)
    → 0 < hz
    → hz < 2 ^ 64
    → ns < 2 ^ 64
    → ns * hz < 2 ^ 64 * ns_per_s
    → ticks_of_ns hz ns * ns_per_s < 2 ^ 64 * hz
    → (timestamp_fix hz (ticks_of_ns hz ns) * hz ≤ ns * hz)
      × (ns * hz < timestamp_fix hz (ticks_of_ns hz ns) * hz + hz + ns_per_s)
unfolding timestamp_fix ticks_of_ns
timestamp_roundtrip hz ns pos hz64 ns64 there back = omega (
  arith,
  mul_div-floor ns hz ns_per_s (omega arith) (omega arith) there,
  mul_div-floor (mul_div ns hz ns_per_s) ns_per_s hz pos (omega arith) back,
)

-- `ns_timer` multiplies in 64 bits: from the cycle count at which the product passes 2 ^ 64 it is
-- below 2 ^ 64 / hz, and no longer the time in nanoseconds.
pub ns_timer_wraps :
    (hz cycles : ℕ)
    → 0 < hz
    → 2 ^ 64 + hz ≤ cycles * ns_per_s
    → (ns_timer hz cycles * hz < 2 ^ 64) × (ns_timer hz cycles < cycles * ns_per_s / hz)
unfolding ns_timer
ns_timer_wraps hz cycles pos h = (omega (arith, low), lt_of_mul-lt-mul_right hz below)
  where
    low : cycles * ns_per_s % 2 ^ 64 / hz * hz ≤ cycles * ns_per_s % 2 ^ 64
    low = div-mul-le_self (cycles * ns_per_s % 2 ^ 64) hz

    below : cycles * ns_per_s % 2 ^ 64 / hz * hz < cycles * ns_per_s / hz * hz
    below = omega (arith, low, div-add-mod (cycles * ns_per_s) hz, mod-lt (cycles * ns_per_s) pos)

abbrev pub answered : LinkPoll → Bool
answered p = p.res == 0 && p.up

-- The outcome of polling from call `n` on, `retries` times at most.
pub record Polled (polls : ℕ → LinkPoll) (retries n : ℕ) (r : ℕ × Bool × ℕ) : Type 0 where
  pub success : r.0 ≡ 0
  pub last : ℕ
  pub count : r.2 ≡ suc last
  pub status : r.1 ≡ (polls last).up
  pub from : n ≤ last
  pub until : last < n + retries
  pub silent : (i : ℕ) → n ≤ i → i < last → answered (polls i) ≡ false
  pub early : suc last < n + retries → answered (polls last) ≡ true

Polled-skip :
    (polls : ℕ → LinkPoll) (r n : ℕ) (x : ℕ × Bool × ℕ)
    → answered (polls n) ≡ false
    → Polled polls (suc r) (n + 1) x
    → Polled polls (suc (suc r)) n x
Polled-skip polls r n x down v = record {
  success = v.success;
  last = v.last;
  count = v.count;
  status = v.status;
  from = omega (arith, v.from);
  until = omega (arith, v.until);
  silent = λ i p q. elim (Bool-cases (i == n)) [
    | inl e ↦ subst (λ j. answered (polls j) ≡ false) (sym ((==_iff i n).0 e)) down
    | inr e ↦ v.silent i (ground arith) q
  ];
  early = λ p. v.early (omega arith);
}

poll_link-Polled :
    (polls : ℕ → LinkPoll) (retries n : ℕ) (a : Bool)
    → answered (polls n) ≡ a
    → Polled polls (suc retries) n (poll_link polls (suc retries) n)
unfolding poll_link
poll_link-Polled polls retries n true up = record {
  success = ground arith;
  last = n;
  count = ground arith;
  status = ground arith;
  from = omega arith;
  until = omega arith;
  silent = λ i p q. absurd (omega arith);
  early = λ p. up;
}
poll_link-Polled polls zero n false down = record {
  success = ground arith;
  last = n;
  count = ground arith;
  status = ground arith;
  from = omega arith;
  until = omega arith;
  silent = λ i p q. absurd (omega arith);
  early = λ p. absurd (omega arith);
}
poll_link-Polled polls (suc r) n false down = subst (Polled polls (suc (suc r)) n) (ground arith) (
    Polled-skip polls r n (poll_link polls (suc r) (n + 1)) down
      (poll_link-Polled polls r (n + 1) (answered (polls (n + 1))) refl))

-- `link_status` asks at least once and at most as often as `retry` allows, stops at the first answer
-- that the link is up, and before its last call only such an answer stops it. It leaves the status
-- of its last call behind, and its result is 0 in every case, a time-out included.
link_status-Polled :
    (polls : ℕ → LinkPoll) (timeout : ℕ)
    → timeout < 2 ^ 31
    → Polled polls (retry timeout).1 0 (link_status polls timeout)
unfolding link_status
link_status-Polled polls timeout h =
    subst (λ k. Polled polls k 0 (poll_link polls k 0)) (sym positive)
      (poll_link-Polled polls ((retry timeout).1 - 1) 0 (answered (polls 0)) refl)
  where
    positive : (retry timeout).1 ≡ suc ((retry timeout).1 - 1)
    positive = omega (arith, retry_covers timeout h)

-- Where both counters run forward and the product fits 64 bits, the estimate scales the cycles' rate by
-- the ticks for each cycle, if the upper halves of the device's readings agree. If they differ, as
-- where the device's counter passes a multiple of 2 ^ 32 between the readings, its bytes are taken to
-- be swapped.
pub estimate_clock_freq_lem :
    (tsc_hz base0 base1 dev0 dev1 : ℕ)
    → dev0 ≤ dev1
    → dev1 < 2 ^ 64
    → base0 ≤ base1
    → base1 < 2 ^ 64
    → tsc_hz * (dev1 - dev0) < 2 ^ 64
    → let r = estimate_clock_freq tsc_hz (some dev0) base0 (some dev1) base1 in
      ((dev0 / 2 ^ 32 ≡ dev1 / 2 ^ 32) × (r ≡ (tsc_hz * (dev1 - dev0) / (base1 - base0), false)))
      ⊎ ((dev0 / 2 ^ 32 ≢ dev1 / 2 ^ 32) × (r.1 ≡ true))
unfolding estimate_clock_freq
estimate_clock_freq_lem tsc_hz base0 base1 dev0 dev1 d d64 b b64 fits =
    elim (Bool-cases (dev1 / 2 ^ 32 == dev0 / 2 ^ 32)) [
      | inl same ↦ inl (
        ground (arith, same),
        rw (same, estimate_clock_freq) (rw (ticks, cycles) (rw (mod-eq_of_lt fits))),
      )
      | inr differ ↦ inr (ground (arith, differ), ground (arith, differ))
    ]
  where
    ticks : (dev1 + 2 ^ 64 - dev0) % 2 ^ 64 ≡ dev1 - dev0
    ticks = omega arith

    cycles : (base1 + 2 ^ 64 - base0) % 2 ^ 64 ≡ base1 - base0
    cycles = omega arith
