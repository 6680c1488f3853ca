-- ===== src/Dpdkx/Jobs.antt =====
-- dpdkx/jobs.cpp: the schedulers that run on a core. A job is what its `process` does to the state of
-- the world; `running` is read from that state, as other threads may change it between two steps.
pub mod Laws
pub mod Loop
pub mod Address
pub mod FlowQueue
use dpdk_tools.Common.{
  ℕ, zero, suc, ◌+◌, ◌%◌, ltb, ◌==◌, if◌then◌else◌, Bool, true, false, List, [], ◌∷◌, ◌++◌, length,
  Option, none, some,
}

pub data JobState : Type 0 where
  busy idling done : JobState

abbrev pub cycle_threshold : ℕ
cycle_threshold = 33

abbrev pub idle_threshold : ℕ
idle_threshold = 2

abbrev pub is_empty {ℓ} : {A : Type ℓ} → List A → Bool
is_empty [] = true
is_empty (x ∷ xs) = false

-- `W` is all that jobs see and change; `process j` is the virtual call on job `j`.
module _ {W J : Type 0} (process : J → W → JobState × W) where
  -- The `for` loop of `run_jobs_once`: `kept` stands before the iterator, the third argument from it
  -- on. The result is the vector that is left, the state, and the world.
  unfoldable pub pass : List J → JobState → List J → W → List J × JobState × W
  pass kept res [] w = (kept, res, w)
  pass kept res (j ∷ js) w =
      let w' = (process j w).1 in
      elim ((process j w).0) [
        | idling ↦ pass (kept ++ j ∷ []) res js w'
        | busy ↦ pass (kept ++ j ∷ []) busy js w'
        | done ↦
            let rest = pass kept res js w' in if is_empty (kept ++ js) then ([], done, w') else rest
      ]

  unfoldable pub run_jobs_once : List J → W → List J × JobState × W
  unfolding pass
  run_jobs_once jobs w = pass [] idling jobs w

-- How the inner loop ends: the function returns, or `running` is read again.
pub data Turn (S : Type 0) : Type 0 where
  finished : S → Turn S
  again : ℕ → S → Turn S

-- The loops of `job::run_exclusive` and `run_jobs`, which differ in what one step is.
module _ {S : Type 0} (step : S → JobState × S) (running : S → Bool) where
  -- The `for` loop, by the cycles that are left; `idle` is a `std::uint8_t`.
  unfoldable pub cycles : ℕ → ℕ → S → Turn S
  cycles zero idle s = again idle s
  cycles (suc left) idle s =
      let s' = (step s).1 in
      let idle' = (idle + 1) % 256 in
      elim ((step s).0) [
        | busy ↦ cycles left 0 s'
        | idling ↦
            let rest = cycles left idle' s' in
            if ltb idle_threshold idle' then again idle' s' else rest
        | done ↦ finished s'
      ]

  -- The `while (running)` loop on fuel.
  unfoldable pub run_loop : ℕ → ℕ → S → Option S
  unfolding cycles
  run_loop zero idle s = none
  run_loop (suc fuel) idle s = elim (running s) [
    | true ↦ elim (cycles cycle_threshold idle s) [
      | finished s' ↦ some s'
      | again idle' s' ↦ run_loop fuel idle' s'
    ]
    | false ↦ some s
  ]

module _ {W J : Type 0} (process : J → W → JobState × W) (running : W → Bool) where
  unfoldable pub run_exclusive : ℕ → J → W → Option W
  unfolding run_loop
  run_exclusive fuel j w = run_loop (process j) running fuel 0 w

  -- A step of `run_jobs` is a pass over the vector that is left.
  unfoldable pub jobs_step : List J × W → JobState × (List J × W)
  unfolding run_jobs_once
  jobs_step (jobs, w) = let (jobs', res, w') = run_jobs_once process jobs w in (res, (jobs', w'))

  -- A single job runs exclusively.
  unfoldable pub run_jobs : ℕ → List J → W → Option W
  unfolding run_loop jobs_step run_exclusive
  run_jobs fuel (j ∷ []) w = run_exclusive fuel j w
  run_jobs fuel jobs w = elim (run_loop jobs_step (λ s. running s.1) fuel 0 (jobs, w)) [
    | none ↦ none
    | some s ↦ some s.1
  ]
