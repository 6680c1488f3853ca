-- ===== src/Dpdkx/Jobs/Address.antt =====
-- `dpdkx::ether_address` of dpdkx/jobs.cpp: a device is asked for an address until it knows, while
-- the jobs of the core go on.
use dpdk_tools.Common.{
  ℕ, zero, suc, ◌<◌, ◌≡◌, refl, if◌then◌else◌, Bool, true, false, Bool-cases, ◌⊎◌, inl, inr, List,
  Option, none, some, arith,
}
use dpdk_tools.Dpdkx.Device.Sinks.{
  Outcome, ok, failed, not_supported, connection_aborted, operation_canceled, timed_out,
}
use dpdk_tools.Dpdkx.Jobs.{JobState, done, run_jobs_once}

-- The answers of a device that end the loop.
unfoldable pub is_final : Outcome → Bool
is_final ok = true
is_final (failed not_supported) = true
is_final o = false

unfoldable pub is_done : JobState → Bool
is_done done = true
is_done s = false

-- `resolve` is `device.ether_address`, and `in_time` compares the clock with the start and the timeout.
module _ {W J : Type 0} (process : J → W → JobState × W) (resolve : W → Outcome × W)
    (running in_time : W → Bool) where
  -- The `do` loop on fuel: the answer, the jobs that are left, and the world.
  unfoldable pub ask_again : ℕ → List J → W → Option (Outcome × List J × W)
  unfolding is_final is_done run_jobs_once
  ask_again zero jobs w = none
  ask_again (suc fuel) jobs w =
      let (res, w₁) = resolve w in
      let (jobs', state, w₂) = run_jobs_once process jobs w₁ in
      let rest = ask_again fuel jobs' w₂ in
      if is_final res
      then some (res, jobs, w₁)
      else if is_done state
      then some (failed connection_aborted, jobs', w₂)
      else if running w₂
      then (if in_time w₂ then rest else some (failed timed_out, jobs', w₂))
      else some (failed operation_canceled, jobs', w₂)

  abbrev asked : W → W
  asked w = (resolve w).1

  abbrev state_after : List J → W → JobState
  state_after jobs w = (run_jobs_once process jobs (asked w)).1

  abbrev pub world_after : List J → W → W
  world_after jobs w = (run_jobs_once process jobs (asked w)).2

  abbrev jobs_after : List J → W → List J
  jobs_after jobs w = (run_jobs_once process jobs (asked w)).0

  -- The rounds that bring about an answer.
  pub data Asked : List J → W → Outcome → Type 0 where
    answered : (jobs : List J) (w : W) → is_final (resolve w).0 ≡ true → Asked jobs w (resolve w).0
    aborted :
        (jobs : List J) (w : W)
        → is_final (resolve w).0 ≡ false
        → is_done (state_after jobs w) ≡ true
        → Asked jobs w (failed connection_aborted)
    canceled :
        (jobs : List J) (w : W)
        → is_final (resolve w).0 ≡ false
        → is_done (state_after jobs w) ≡ false
        → running (world_after jobs w) ≡ false
        → Asked jobs w (failed operation_canceled)
    expired :
        (jobs : List J) (w : W)
        → is_final (resolve w).0 ≡ false
        → is_done (state_after jobs w) ≡ false
        → running (world_after jobs w) ≡ true
        → in_time (world_after jobs w) ≡ false
        → Asked jobs w (failed timed_out)
    next :
        (jobs : List J) (w : W) (o : Outcome)
        → is_final (resolve w).0 ≡ false
        → is_done (state_after jobs w) ≡ false
        → running (world_after jobs w) ≡ true
        → in_time (world_after jobs w) ≡ true
        → Asked (jobs_after jobs w) (world_after jobs w) o
        → Asked jobs w o

  -- The loop returns where each round that leaves it in time brings some measure of the time left
  -- down, on any fuel above that measure. It returns the device's answer as soon as that is success
  -- or `not_supported`; else an error, by the first of these: no job is left, the run was stopped,
  -- the time is up.
  pub ask_again_total :
      (left : W → ℕ)
      → ((jobs : List J) (w : W)
          → (in_time (world_after jobs w) ≡ false) ⊎ (left (world_after jobs w) < left w))
      → (fuel : ℕ) (jobs : List J) (w : W) → left w < fuel
      → (r : Outcome × List J × W) × (ask_again fuel jobs w ≡ some r) × Asked jobs w r.0
  unfolding ask_again
  ask_again_total left falls zero jobs w h = absurd (omega arith)
  ask_again_total left falls (suc fuel) jobs w h = elim (Bool-cases (is_final (resolve w).0)) [
    | inl fin ↦ (((resolve w).0, jobs, asked w), rw (fin, ask_again) refl, answered jobs w fin)
    | inr unknown ↦ elim (Bool-cases (is_done (state_after jobs w))) [
      | inl over ↦ (
        (failed connection_aborted, jobs_after jobs w, world_after jobs w),
        rw (unknown, over, ask_again) refl,
        aborted jobs w unknown over,
      )
      | inr more ↦ elim (Bool-cases (running (world_after jobs w))) [
        | inr stop ↦ (
          (failed operation_canceled, jobs_after jobs w, world_after jobs w),
          rw (unknown, more, stop, ask_again) refl,
          canceled jobs w unknown more stop,
        )
        | inl on ↦ elim (Bool-cases (in_time (world_after jobs w))) [
          | inr late ↦ (
            (failed timed_out, jobs_after jobs w, world_after jobs w),
            rw (unknown, more, on, late, ask_again) refl,
            expired jobs w unknown more on late,
          )
          | inl early ↦
              let (r, e, a) =
                ask_again_total left falls fuel (jobs_after jobs w) (world_after jobs w)
                  (ground (arith, falls jobs w)) in
              (
                r,
                rw (unknown, more, on, early, ask_again) e,
                next jobs w r.0 unknown more on early a,
              )
        ]
      ]
    ]
  ]
