-- ===== src/Dpdkx/Jobs/Loop.antt =====
-- How long the loops run after jobs are stopped, and that they return.
use dpdk_tools.Common.{
  ℕ, zero, suc, max, ◌+◌, ◌-◌, ◌%◌, ◌≤◌, ◌<◌, ◌≡◌, refl, ◌∙◌, ◌⊎◌, inl, inr, ltb, if◌then◌else◌,
  Bool, true, false, Bool-cases, Option, some, arith, ap₂,
}
use dpdk_tools.Dpdkx.Jobs.{
  JobState, busy, idling, done, Turn, finished, again, cycles, run_loop, cycle_threshold,
  idle_threshold,
}

abbrev state_of : {S : Type 0} → Turn S → S
state_of (finished s) = s
state_of (again idle s) = s

-- The steps until an idle job gives way: `idle` is counted in 8 bits.
abbrev until_idle : ℕ → ℕ
until_idle idle = 1 + (if ltb 2 ((idle + 1) % 256) then 0 else 3 - (idle + 1) % 256)

-- The steps that may follow the one in which jobs are stopped.
abbrev pub slack : Bool → ℕ
slack true = 3
slack false = 32

module _ {S : Type 0} (step : S → JobState × S) (running : S → Bool) where
  -- The step that answered `done`, if the function returns.
  abbrev Finished : Turn S → Type 0
  Finished (finished s') = (s : S) × (step s ≡ (done, s'))
  Finished (again idle s') = Unit

  cycles-Finished : (left idle : ℕ) (s : S) → Finished (cycles step running left idle s)
  unfolding cycles
  cycles-Finished zero idle s = tt
  cycles-Finished (suc left) idle s =
      by_state (step s).0 refl (cycles-Finished left 0 (step s).1)
        (cycles-Finished left ((idle + 1) % 256) (step s).1)
    where
      by_state :
          (r : JobState)
          → (step s).0 ≡ r
          → Finished (cycles step running left 0 (step s).1)
          → Finished (cycles step running left ((idle + 1) % 256) (step s).1)
          → Finished (elim r [
            | busy ↦ cycles step running left 0 (step s).1
            | idling ↦
                if ltb idle_threshold ((idle + 1) % 256)
                then again ((idle + 1) % 256) (step s).1
                else cycles step running left ((idle + 1) % 256) (step s).1
            | done ↦ finished (step s).1
          ])
      by_state busy e b i = b
      by_state idling e b i = elim (Bool-cases (ltb idle_threshold ((idle + 1) % 256))) [
        | inl tired ↦ rw tired tt
        | inr not_yet ↦ rw not_yet i
      ]
      by_state done e b i = (s, ap₂ (λ a b. (a, b)) e refl)

  -- `calls` counts the steps in the state.
  module _ (calls : S → ℕ) (one : (s : S) → calls (step s).1 ≡ suc (calls s)) where
    cycles_calls :
        (left idle : ℕ) (s : S)
        → (calls s ≤ calls (state_of (cycles step running left idle s)))
          × (calls (state_of (cycles step running left idle s)) ≤ calls s + left)
    unfolding cycles
    cycles_calls zero idle s = omega arith
    cycles_calls (suc left) idle s = ground (
      arith,
      one s,
      cycles_calls left 0 (step s).1,
      cycles_calls left ((idle + 1) % 256) (step s).1,
    )

    cycles_progress :
        (left idle : ℕ) (s : S) → calls s < calls (state_of (cycles step running (suc left) idle s))
    unfolding cycles
    cycles_progress left idle s = ground (
      arith,
      one s,
      cycles_calls left 0 (step s).1,
      cycles_calls left ((idle + 1) % 256) (step s).1,
    )

    cycles_idle :
        ((s : S) → (step s).0 ≡ idling)
        → (left idle : ℕ) (s : S)
        → calls (state_of (cycles step running left idle s)) ≤ calls s + until_idle idle
    unfolding cycles
    cycles_idle idles zero idle s = omega arith
    cycles_idle idles (suc left) idle s =
        ground (arith, one s, idles s, cycles_idle idles left ((idle + 1) % 256) (step s).1)

    turn_slack :
        (only : Bool)
        → (only ≡ true → (s : S) → (step s).0 ≡ idling)
        → (idle : ℕ) (s : S)
        → calls (state_of (cycles step running cycle_threshold idle s)) ≤ calls s + 1 + slack only
    turn_slack true idles idle s = ground (arith, cycles_idle (idles refl) cycle_threshold idle s)
    turn_slack false idles idle s = omega (arith, (cycles_calls cycle_threshold idle s).1)

    -- How the loops return: jobs were stopped, or a step answered `done`.
    pub record Stopped (stop slack : ℕ) (s : S) (r : Option S) : Type 0 where
      pub state : S
      pub result : r ≡ some state
      pub soon : calls state ≤ max (calls s) (stop + slack)
      pub why : (stop ≤ calls state) ⊎ ((t : S) × (step t ≡ (done, state)))

-- A job, or a pass over the jobs, that counts its steps, in jobs that are stopped once so many steps
-- were made: on more fuel than the steps that are left to that, both loops end. They end with the step that answered
-- `done`, or when jobs were stopped; then at most 32 steps follow the one that stopped them, and if
-- every step idles, at most 3.
pub run_loop-Stopped :
    {S : Type 0} (step : S → JobState × S) (running : S → Bool) (calls : S → ℕ)
    (one : (s : S) → calls (step s).1 ≡ suc (calls s)) (stop : ℕ) (only : Bool)
    → ((s : S) → running s ≡ ltb (calls s) stop)
    → (only ≡ true → (s : S) → (step s).0 ≡ idling)
    → (fuel idle : ℕ) (s : S) → 0 < fuel
    → stop < calls s + fuel
    → Stopped step running calls one stop (slack only) s (run_loop step running fuel idle s)
unfolding run_loop
run_loop-Stopped step running calls one stop only runs idles zero idle s some_fuel h =
    absurd (omega arith)
run_loop-Stopped {S = S} step running calls one stop only runs idles (suc fuel) idle s some_fuel h =
    elim (Bool-cases (ltb (calls s) stop)) [
      | inr halted ↦ record {
        state = s;
        result = rw (runs s ∙ halted, run_loop) refl;
        soon = omega arith;
        why = inl (ground arith);
      }
      | inl on ↦
          rw (runs s ∙ on, run_loop)
            (turn (cycles step running cycle_threshold idle s) (ground arith)
              (cycles_progress step running calls one 32 idle s)
              (turn_slack step running calls one only idles idle s)
              (cycles-Finished step running cycle_threshold idle s)
              (λ i s' more.
                run_loop-Stopped step running calls one stop only runs idles fuel i s'
                  (ground arith) (ground arith)))
    ]
  where
    turn :
        (t : Turn S)
        → calls s < stop
        → calls s < calls (state_of t)
        → calls (state_of t) ≤ calls s + 1 + slack only
        → Finished step running t
        → ((i : ℕ) (s' : S)
            → calls s < calls s'
            → Stopped step running calls one stop (slack only) s' (run_loop step running fuel i s'))
        → Stopped step running calls one stop (slack only) s (elim t [
          | finished s' ↦ some s'
          | again idle' s' ↦ run_loop step running fuel idle' s'
        ])
    turn (finished s') below more few by rec = record {
      state = s';
      result = refl;
      soon = omega arith;
      why = inr by;
    }
    turn (again i s') below more few by rec =
        let r = rec i s' more in
        record { state = r.state; result = r.result; soon = omega (arith, r.soon); why = r.why }
