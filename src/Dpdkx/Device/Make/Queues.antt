-- ===== src/Dpdkx/Device/Make/Queues.antt =====
-- A call for each of some queues: all succeed, or the first that fails.
use mathlib.Core.Option.{none-ne-some, some-injective}
use dpdk_tools.Common.{
  ℕ, zero, suc, ◌+◌, ◌≤◌, ◌<◌, ◌≡◌, sym, ap, ◌∙◌, ◌==◌, ==_iff, Bool, true, false, Bool-cases, inl,
  inr, arith, none, some,
}
use dpdk_tools.Dpdkx.Device.Make.{iota, first_failing}

-- The first of the queues from `i` on, `n` of them, that a call does not set up.
pub record FirstFailing (setup : ℕ → Bool) (n i q : ℕ) : Type 0 where
  pub from : i ≤ q
  pub below : q < i + n
  pub failed : setup q ≡ false
  pub before : (k : ℕ) → i ≤ k → k < q → setup k ≡ true

pub record AllSetUp (setup : ℕ → Bool) (n i : ℕ) : Type 0 where
  pub each : (k : ℕ) → i ≤ k → k < i + n → setup k ≡ true

at_first :
    (setup : ℕ → Bool) (i k : ℕ)
    → setup i ≡ true
    → (suc i ≤ k → setup k ≡ true)
    → i ≤ k
    → setup k ≡ true
at_first setup i k good later h = elim (Bool-cases (i == k)) [
  | inl here ↦ ap setup (sym ((==_iff i k).0 here)) ∙ good
  | inr past ↦ later (ground arith)
]

pub first_failing-some :
    (setup : ℕ → Bool) (n i q : ℕ)
    → first_failing setup (iota n i) ≡ some q
    → FirstFailing setup n i q
unfolding first_failing
first_failing-some setup zero i q e = absurd (none-ne-some q e)
first_failing-some setup (suc n) i q e = elim (Bool-cases (setup i)) [
  | inr bad ↦
      let here : i ≡ q = some-injective i q (rw (bad, first_failing) at e) in
      record {
        from = omega arith;
        below = omega arith;
        failed = ap setup (sym here) ∙ bad;
        before = λ k h g. absurd (omega arith);
      }
  | inl good ↦
      let f = first_failing-some setup n (suc i) q (rw (good, first_failing) at e) in
      record {
        from = omega (arith, f.from);
        below = omega (arith, f.below);
        failed = f.failed;
        before = λ k h g. at_first setup i k good (λ later. f.before k later g) h;
      }
]

pub first_failing-none :
    (setup : ℕ → Bool) (n i : ℕ) → first_failing setup (iota n i) ≡ none → AllSetUp setup n i
unfolding first_failing
first_failing-none setup zero i e = record { each = λ k h g. absurd (omega arith) }
first_failing-none setup (suc n) i e = elim (Bool-cases (setup i)) [
  | inr bad ↦ absurd (none-ne-some i (sym (rw (bad, first_failing) at e)))
  | inl good ↦
      let f = first_failing-none setup n (suc i) (rw (good, first_failing) at e) in
      record { each = λ k h g. at_first setup i k good (λ later. f.each k later (omega arith)) h }
]
