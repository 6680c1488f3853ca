-- ===== src/Dpdkx/Jobs/Laws.antt =====
-- One pass over the jobs, against the answers that they give in turn.
use mathlib.Core.List.{append_assoc, append-nil}
use dpdk_tools.Common.{
  ◌≡◌, refl, if◌then◌else◌, Bool, true, false, ◌&&◌, ◌||◌, not, List, [], ◌∷◌, ◌++◌, arith,
}
use dpdk_tools.Dpdkx.Jobs.{JobState, busy, idling, done, is_empty, pass, run_jobs_once}

abbrev is_busy : JobState → Bool
is_busy busy = true
is_busy _ = false

is_empty_middle {ℓ} : {A : Type ℓ} (x : A) (xs ys : List A) → is_empty (xs ++ x ∷ ys) ≡ false
is_empty_middle x [] ys = refl
is_empty_middle x (z ∷ zs) ys = refl

module _ {W J : Type 0} (process : J → W → JobState × W) where
  -- Every job is asked once, in order: the jobs that did not answer `done`, whether some job was
  -- busy, and the world that is left.
  pub visit : List J → W → List J × Bool × W
  visit [] w = ([], false, w)
  visit (j ∷ js) w =
      let (s, w') = process j w in
      let (rest, any, w'') = visit js w' in
      (elim s [ done ↦ rest | _ ↦ j ∷ rest ], is_busy s || any, w'')

  abbrev outcome : List J → JobState → List J → W → List J × JobState × W
  outcome kept res js w =
      let (rest, any, w') = visit js w in
      (
        kept ++ rest,
        if not (is_empty js) && is_empty (kept ++ rest) then done else if any then busy else res,
        w',
      )

  pass_lem :
      (kept : List J) (res : JobState) (js : List J) (w : W)
      → pass process kept res js w ≡ outcome kept res js w
  unfolding pass visit
  pass_lem kept res [] w = ground (arith, append-nil kept)
  pass_lem kept res (j ∷ []) w =
      ground (arith, append-nil kept, is_empty_middle j kept [], append-nil (kept ++ j ∷ []))
  pass_lem kept res (j ∷ k ∷ js) w =
      let w' = (process j w).1 in
      let rest = (visit (k ∷ js) w').0 in
      ground (
        arith,
        pass_lem (kept ++ j ∷ []) busy (k ∷ js) w',
        pass_lem (kept ++ j ∷ []) res (k ∷ js) w',
        pass_lem kept res (k ∷ js) w',
        append_assoc kept (j ∷ []) rest,
        is_empty_middle j kept rest,
        is_empty_middle k kept js,
      )

  -- A pass asks every job once, in order. The jobs left in the vector are those that did not answer
  -- `done`, in the same order; the result is `done` if there were jobs and none is left, else `busy`
  -- if some job was busy, else `idling`.
  pub run_jobs_once-visit :
      (js : List J) (w : W)
      → let (rest, any, w') = visit js w in
        run_jobs_once process js w ≡ (
          rest,
          if not (is_empty js) && is_empty rest then done else if any then busy else idling,
          w',
        )
  unfolding run_jobs_once
  run_jobs_once-visit js w = pass_lem [] idling js w
