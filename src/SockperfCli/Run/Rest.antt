-- ===== src/SockperfCli/Run/Rest.antt =====
-- `run` with a device: from the receivers to the destructor of `job_sentry`.

use dpdk_tools.Common.{
  ℕ, suc, ◌+◌, ◌≤◌, ◌≡◌, refl, ap, ap₂, ◌∙◌, ◌==◌, if◌then◌else◌, ◌>>=◌, Bool, true, false,
  Bool-cases, inl, inr, List, [], ◌∷◌, ◌++◌, map, length, take, drop, take_all, length-take, Option,
  some, arith, append-nil,
}
use dpdk_tools.Common.Distinct.{Distinct-append, Fresh-append}
use dpdk_tools.Dpdkx.Device.Make.{Device}
use dpdk_tools.SockperfCli.Run.Plan.{RunOptions, Tests, plan_tests}
use dpdk_tools.SockperfCli.Run.{
  RunJob, receiver, Call, stop_jobs, wait_all, Machine, Ended, drive, sentry, with_device, launch_n,
  is_ok, not_started, no_link_status, not_attached,
}
use dpdk_tools.SockperfCli.Run.Lcores.{
  Lcores, holding, at_rest, exec, exec-append, exec-launches, any_polls, launches,
}
use dpdk_tools.SockperfCli.Run.Loops.{launch_n-launches, cores-apart}
use dpdk_tools.SockperfCli.Run.Measure.{started, started-append, started-launches}
use dpdk_tools.SockperfCli.Run.Phases.{Room}
use dpdk_tools.SockperfCli.Run.Drive.{
  tests_of, is_finished, and_false, Idle-nil, drive_senders-Starts,
}

-- What a part of the routine starts from rest: the receivers, and the tests if it comes to its end.
abbrev pub Launched : List ℕ → List RunJob → Ended × List Call → Type 0
Launched rx tests (e, calls) =
    started calls ≡ map receiver rx ++ (if is_finished e then tests else [])

abbrev pub Executes : ℕ → Ended × List Call → Type 0
Executes main (e, calls) = (s : Lcores) × (exec main calls at_rest ≡ some s)

length-map-receiver : (qs : List ℕ) → length (map receiver qs) ≡ length qs
length-map-receiver [] = refl
length-map-receiver (q ∷ qs) = ap suc (length-map-receiver qs)

one_more : (last : Bool) (r s n : ℕ) → 1 ≤ s → r + s ≤ n → r + 0 + (if last then 1 else 0) ≤ n
one_more true r s n h g = omega arith
one_more false r s n h g = omega arith

module _ (m : Machine) (o : RunOptions) (cores : List ℕ) (last : Bool) (device : Device)
    (room : Room m.main_core cores last (length device.rx_jobs) (length device.tx_jobs))
    (tests : Tests) where
  drive-Launched :
      (r : Ended × List Call) × (drive m o cores device tests ≡ some r)
      × Executes m.main_core r
      × Launched device.rx_jobs (tests_of tests (length device.tx_jobs)) r
  unfolding drive
  drive-Launched =
      let js : List RunJob = map receiver device.rx_jobs in
      let n : length js ≡ length device.rx_jobs = length-map-receiver device.rx_jobs in
      let ((e, calls), driven, ((s, ran), begun)) =
        drive_senders-Starts m o cores last (length device.rx_jobs) (length device.tx_jobs) room js
          tests device.config.tx.burst_size in
      let rx_cores : List ℕ = take (length device.rx_jobs) cores in
      let is_launched : launch_n cores 0 js (length device.rx_jobs)
          ≡ some (launches rx_cores js, drop (length device.rx_jobs) js) =
        launch_n-launches cores 0 js (length device.rx_jobs) (omega (arith, room.fits))
          (omega (arith, n))
        ∙ ap (λ l. some (launches rx_cores l, drop (length device.rx_jobs) js))
            (take_all (length device.rx_jobs) js (omega (arith, n))) in
      let (d, f) =
        cores-apart m.main_core cores last (length device.rx_jobs) 0 room.distinct room.main_last
          room.back (one_more last _ _ _ room.some_sender room.fits) in
      (
        (e, launches rx_cores js ++ calls),
        rw (is_launched, driven) refl,
        (
          s,
          exec-append m.main_core (launches rx_cores js) calls at_rest
              ∙ ap (λ t. t >>= exec m.main_core calls)
                  (exec-launches m.main_core rx_cores js [] false (Distinct-append rx_cores [] d).0
                    (Fresh-append m.main_core rx_cores [] f).0 (Idle-nil rx_cores))
              ∙ ran,
        ),
        started-append (launches rx_cores js) calls
            ∙ ap₂ ◌++◌
                (started-launches rx_cores js
                  (omega (arith, n, length-take (length device.rx_jobs) cores, room.fits)))
                begun,
      )

sentry_rests :
    (main : ℕ) (e : Ended) (calls : List Call)
    → Executes main (e, calls)
    → (s : Lcores) × (exec main (sentry (e, calls)).1 at_rest ≡ some s) × (s.busy ≡ [])
unfolding exec
sentry_rests main e calls (s, ran) = (
  holding true [],
  exec-append main calls _ at_rest
      ∙ ap (λ t. t >>= exec main (stop_jobs ∷ (wait_all ∷ []))) ran
      ∙ rw (and_false (any_polls s.busy)) refl,
  refl,
)

-- How `run` ends: no launch was refused, no wait was for a receiver that polls on, and no core is busy any more; it has
-- started the receivers, of which there is one at most, and, if it came to its end, the tests, with
-- some senders.
abbrev pub Rests : ℕ → Ended × List Call → Type 0
Rests main (e, calls) = (s : Lcores) × (exec main calls at_rest ≡ some s) × (s.busy ≡ [])

abbrev pub StartsAll : RunOptions → Ended × List Call → Type 0
StartsAll o r =
    (rx : List ℕ) × (senders : ℕ) × (burst : ℕ) × (length rx ≤ 1)
    × (1 ≤ senders)
    × Launched rx (tests_of (plan_tests o burst) senders) r

abbrev pub RunsWell : ℕ → RunOptions → Option (Ended × List Call) → Type 0
RunsWell main o result = (r : Ended × List Call) × (result ≡ some r) × Rests main r × StartsAll o r

-- No call at all.
pub nothing :
    (main : ℕ) (o : RunOptions) (e : Ended) → is_finished e ≡ false → RunsWell main o (some (e, []))
unfolding exec
nothing main o e h =
    ((e, []), refl, (at_rest, refl, refl), ([], 1, 0, omega arith, omega arith, rw h refl))

pub with_device-RunsWell :
    (m : Machine) (o : RunOptions) (cores : List ℕ) (last : Bool) (device : Device)
    → Room m.main_core cores last (length device.rx_jobs) (length device.tx_jobs)
    → length device.rx_jobs ≤ 1
    → RunsWell m.main_core o (with_device m o cores device)
unfolding with_device exec
with_device-RunsWell m o cores last device room few = elim (Bool-cases (m.started == 0)) [
  | inr no_start ↦ rw no_start (nothing m.main_core o not_started refl)
  | inl start ↦ elim (Bool-cases (m.link_status == 0)) [
    | inr no_link ↦ rw (start, no_link) (nothing m.main_core o no_link_status refl)
    | inl link ↦ elim (Bool-cases (is_ok m.attached)) [
      | inr refused ↦
          rw (start, link, refused)
            (
              sentry (not_attached, []),
              refl,
              sentry_rests m.main_core not_attached [] (at_rest, refl),
              ([], 1, 0, omega arith, omega arith, refl),
            )
      | inl attached ↦
          let ((e, calls), driven, ran, begun) =
            drive-Launched m o cores last device room (plan_tests o device.config.tx.burst_size) in
          rw (start, link, attached, driven)
            (
              sentry (e, calls),
              refl,
              sentry_rests m.main_core e calls ran,
              (
                device.rx_jobs,
                length device.tx_jobs,
                device.config.tx.burst_size,
                few,
                room.some_sender,
                started-append calls (stop_jobs ∷ (wait_all ∷ [])) ∙ append-nil _ ∙ begun,
              ),
            )
    ]
  ]
]
