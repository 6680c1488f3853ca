-- ===== src/SockperfCli/Run/Drive.antt =====
-- `run` from the launch of the receivers on, where the cores have room.

use dpdk_tools.Common.{
  ℕ, ◌+◌, ◌-◌, ◌≤◌, ◌≡◌, refl, ap, ap₂, ◌∙◌, ◌==◌, ltb, ◌&&◌, if◌then◌else◌, ◌>>=◌, Bool, true,
  false, Bool-cases, inl, inr, List, [], ◌∷◌, ◌++◌, map, length, take, Option, none, some,
  Option-cases, arith, min, append-nil,
}
use dpdk_tools.Dpdkx.Device.Make.{iota}
use dpdk_tools.SockperfCli.Run.Plan.{RunOptions, Tests, mempool_cache_size, pool_size}
use dpdk_tools.SockperfCli.Run.{
  RunJob, sender, latency_test, latency_calls, Call, stop_jobs, if_asked, Machine, measure, Ended,
  finished, warm_calls, is_warm, drive_senders, warm_up, destination_mac, no_mempool,
  not_enough_senders, not_warmed_up,
}
use dpdk_tools.SockperfCli.Run.Lcores.{
  Busy, Lcores, holding, exec, exec-append, Idle, Ends, waits, exec-waits, polls_on,
}
use dpdk_tools.SockperfCli.Run.Loops.{wait_n-waits}
use dpdk_tools.SockperfCli.Run.Measure.{started, started-append, started-waits, Leaves}
use dpdk_tools.SockperfCli.Run.Phases.{Room, busy, latency_calls-Leaves, throughput_calls-Leaves}

abbrev pub asked : ℕ → List RunJob → List RunJob
asked n js = if n == 0 then [] else js

if_asked-Leaves :
    (main : ℕ) (b : Busy) (stopped : Bool) (n : ℕ) (o : Option (List Call)) (js : List RunJob)
    → (calls : List Call) × (o ≡ some calls) × Leaves main b stopped calls js
    → (calls : List Call) × (if_asked n o ≡ some calls)
      × Leaves main b (if n == 0 then false else stopped) calls (asked n js)
unfolding exec
if_asked-Leaves main b stopped n o js (calls, e, l) = elim (Bool-cases (n == 0)) [
  | inl not_asked ↦ rw not_asked ([], refl, (refl, refl))
  | inr is_asked ↦ rw is_asked (calls, e, l)
]

if_same : (b : Bool) → (if b then false else false) ≡ false
if_same true = refl
if_same false = refl

pub and_false : (b : Bool) → (b && false) ≡ false
and_false true = refl
and_false false = refl

pub Idle-nil : (cs : List ℕ) → Idle cs []
Idle-nil [] = tt
Idle-nil (c ∷ cs) = (refl, Idle-nil cs)

-- Every job ends when the jobs are told to stop.
Ends-stopped : (js : List RunJob) → Ends true js
Ends-stopped [] = tt
Ends-stopped (j ∷ js) = (and_false (polls_on j), Ends-stopped js)

abbrev pub tests_of : Tests → ℕ → List RunJob
tests_of tests senders =
    asked tests.latency (latency_test ∷ []) ++ asked tests.throughput (map sender (iota senders 0))

module _ (m : Machine) (o : RunOptions) (cores : List ℕ) (last : Bool) (receivers senders : ℕ)
    (room : Room m.main_core cores last receivers senders) (js : List RunJob) where
  -- The tests are run, and then no core is busy.
  measure-started :
      (tests : Tests)
      → (calls : List Call) × (measure m o cores tests receivers senders ≡ some calls)
        × (exec m.main_core calls
              (holding false (busy m.main_core cores last receivers senders room js))
            ≡ some (holding true []))
        × (started calls ≡ tests_of tests senders)
  unfolding measure exec
  measure-started tests =
      let b : Busy = busy m.main_core cores last receivers senders room js in
      let (lat, is_lat, (l, lj)) =
        if_asked-Leaves m.main_core b false tests.latency (latency_calls cores receivers last)
          (latency_test ∷ [])
          (latency_calls-Leaves m.main_core cores last receivers senders room js) in
      let (thr', is_thr', (stop, t')) =
        throughput_calls-Leaves m.main_core cores last receivers senders room js m.receiver_waits
          o.wait_for in
      let (thr, is_thr, (t, tj)) =
        if_asked-Leaves m.main_core b stop tests.throughput _ (map sender (iota senders 0))
          (thr', is_thr', t') in
      (
        lat ++ (thr ++ (stop_jobs ∷ waits (take receivers cores))),
        rw (room.back, is_lat, is_thr, wait_n-waits cores 0 receivers (omega (arith, room.fits)))
            refl,
        exec-append m.main_core lat _ _
            ∙ ap (λ s. s >>= exec m.main_core (thr ++ (stop_jobs ∷ waits (take receivers cores))))
                (l ∙ ap (λ x. some (holding x b)) (if_same (tests.latency == 0)))
            ∙ exec-append m.main_core thr _ _
            ∙ ap (λ s. s >>= exec m.main_core (stop_jobs ∷ waits (take receivers cores))) t
            ∙ exec-waits m.main_core (take receivers cores) js [] true
                (Idle-nil (take receivers cores)) (Ends-stopped js),
        started-append lat _
            ∙ ap₂ ◌++◌ lj (
                started-append thr _
                ∙ ap₂ ◌++◌ tj (started-waits (take receivers cores))
                ∙ append-nil _),
      )

abbrev pub is_finished : Ended → Bool
is_finished finished = true
is_finished e = false

destination_mac-is_finished :
    (m : Machine) (text : Option (List ℕ)) (e : Ended)
    → destination_mac m text ≡ some e
    → is_finished e ≡ false
unfolding destination_mac
destination_mac-is_finished m none e h = ground arith
destination_mac-is_finished m (some t) e h = ground arith

-- The warm-up starts no job on another core.
warm_calls-Leaves :
    (main : ℕ) (b : Busy) (o : RunOptions) (senders : ℕ)
    → 1 ≤ senders
    → (calls : List Call) × (warm_calls o senders ≡ some calls) × Leaves main b false calls []
unfolding warm_calls exec
warm_calls-Leaves main b o senders h = elim (Bool-cases o.no_warmup) [
  | inl skip ↦ rw skip ([], refl, (refl, refl))
  | inr warm ↦
      let some_sender : (senders == 0) ≡ false = ground arith in
      rw (warm, some_sender) (warm_up ∷ [], refl, (refl, refl))
]

-- How a part of the routine ends that starts with these cores busy: no launch is refused, no wait is for
-- a receiver that polls on, and the tests are what it starts, if it comes to its end.
abbrev pub Starts : ℕ → Busy → List RunJob → Ended × List Call → Type 0
Starts main b js (e, calls) =
    ((s : Lcores) × (exec main calls (holding false b) ≡ some s))
    × (started calls ≡ (if is_finished e then js else []))

module _ (m : Machine) (o : RunOptions) (cores : List ℕ) (last : Bool) (receivers senders : ℕ)
    (room : Room m.main_core cores last receivers senders) (js : List RunJob) (tests : Tests)
    (burst : ℕ) where
  pub drive_senders-Starts :
      (r : Ended × List Call) × (drive_senders m o cores burst tests receivers senders ≡ some r)
      × Starts m.main_core
          (busy m.main_core cores last receivers senders room js)
          (tests_of tests senders)
          r
  unfolding drive_senders exec
  drive_senders-Starts = elim (Option-cases (destination_mac m o.destination_mac)) [
    | inr (e, unknown) ↦
        rw (unknown, drive_senders)
          (
            (e, []),
            refl,
            (
              (holding false b, refl),
              rw (destination_mac-is_finished m o.destination_mac e unknown) refl,
            ),
          )
    | inl known ↦ elim (Bool-cases pool) [
      | inr short ↦
          rw (known, short, drive_senders) ((no_mempool, []), refl, ((holding false b, refl), refl))
      | inl enough ↦ elim (Bool-cases (ltb (min (length cores - receivers) senders) senders)) [
        | inl few ↦
            rw (known, enough, few, drive_senders)
              ((not_enough_senders, []), refl, ((holding false b, refl), refl))
        | inr all ↦
            let (warming, is_warming, (w, wj)) =
              warm_calls-Leaves m.main_core b o senders room.some_sender in
            elim (Bool-cases (is_warm o m.warmup)) [
              | inr cold ↦
                  rw (known, enough, all, is_warming, cold, drive_senders)
                    ((not_warmed_up, warming), refl, ((holding false b, w), wj))
              | inl warm ↦
                  let (calls, is_calls, ran, cj) =
                    measure-started m o cores last receivers senders room js tests in
                  rw (known, enough, all, is_warming, warm, is_calls, drive_senders)
                    (
                      (finished, warming ++ calls),
                      refl,
                      (
                        (
                          holding true [],
                          exec-append m.main_core warming calls _
                              ∙ ap (λ s. s >>= exec m.main_core calls) w
                              ∙ ran,
                        ),
                        started-append warming calls ∙ ap₂ ◌++◌ wj cj,
                      ),
                    )
            ]
      ]
    ]
  ]
    where
      b : Busy
      b = busy m.main_core cores last receivers senders room js

      pool : Bool
      pool =
          m.mempool (pool_size o senders) (mempool_cache_size m.cache_max o burst)
            (m.headroom + tests.payload_size)
