-- ===== src/SockperfCli/Run/Measure.antt =====
-- The two tests of `run` on the lcores: what they start, and that they leave the receivers as they were.

use dpdk_tools.Common.{
  ℕ, zero, suc, ◌≤◌, ◌≡◌, refl, ap, ap₂, ◌∙◌, ◌>>=◌, Bool, true, false, Bool-cases, inl, inr, List,
  [], ◌∷◌, ◌++◌, map, length, take, drop, append-nil, some, arith,
}
use dpdk_tools.Common.Distinct.{Distinct, Fresh}
use dpdk_tools.SockperfCli.Run.{
  RunJob, sender, Call, launch, run_here, wait, delay, warm_up, stop_jobs, wait_all, run_left,
  poll_receiver,
}
use dpdk_tools.SockperfCli.Run.Lcores.{
  Busy, holding, exec, exec-append, Idle, Ends, running, launches, waits, exec-launches, exec-waits,
}

-- The jobs that calls start, in their order.
abbrev pub started : List Call → List RunJob
started [] = []
started (launch c j ∷ cs) = j ∷ started cs
started (run_here j ∷ cs) = j ∷ started cs
started (wait c ∷ cs) = started cs
started (delay ∷ cs) = started cs
started (warm_up ∷ cs) = started cs
started (stop_jobs ∷ cs) = started cs
started (wait_all ∷ cs) = started cs

pub started-append : (xs ys : List Call) → started (xs ++ ys) ≡ started xs ++ started ys
started-append [] ys = refl
started-append (launch c j ∷ xs) ys = ap (◌∷◌ j) (started-append xs ys)
started-append (run_here j ∷ xs) ys = ap (◌∷◌ j) (started-append xs ys)
started-append (wait c ∷ xs) ys = started-append xs ys
started-append (delay ∷ xs) ys = started-append xs ys
started-append (warm_up ∷ xs) ys = started-append xs ys
started-append (stop_jobs ∷ xs) ys = started-append xs ys
started-append (wait_all ∷ xs) ys = started-append xs ys

pub started-launches :
    (cs : List ℕ) (js : List RunJob) → length js ≤ length cs → started (launches cs js) ≡ js
started-launches cs [] h = refl
started-launches [] (j ∷ js) h = absurd (omega arith)
started-launches (c ∷ cs) (j ∷ js) h = ap (◌∷◌ j) (started-launches cs js (omega arith))

pub started-waits : (cs : List ℕ) → started (waits cs) ≡ []
started-waits [] = refl
started-waits (c ∷ cs) = started-waits cs

-- Calls that start the jobs, and leave the same cores busy as before; the jobs may be told to stop.
abbrev pub Leaves : ℕ → Busy → Bool → List Call → List RunJob → Type 0
Leaves main b stopped calls js =
    (exec main calls (holding false b) ≡ some (holding stopped b)) × (started calls ≡ js)

-- Jobs that do not poll until they are stopped.
abbrev pub Finite : List RunJob → Type 0
Finite = Ends false

pub Finite-take : (k : ℕ) (js : List RunJob) → Finite js → Finite (take k js)
Finite-take zero js h = tt
Finite-take (suc k) [] h = tt
Finite-take (suc k) (j ∷ js) (e, h) = (e, Finite-take k js h)

pub Finite-drop : (k : ℕ) (js : List RunJob) → Finite js → Finite (drop k js)
Finite-drop zero js h = h
Finite-drop (suc k) [] h = tt
Finite-drop (suc k) (j ∷ js) (e, h) = Finite-drop k js h

pub Finite-senders : (qs : List ℕ) → Finite (map sender qs)
Finite-senders [] = tt
Finite-senders (q ∷ qs) = (refl, Finite-senders qs)

exec-run_left :
    (main : ℕ) (left : List RunJob) (b : Busy)
    → Finite left
    → exec main (run_left left) (holding false b) ≡ some (holding false b)
unfolding exec run_left
exec-run_left main [] b h = refl
exec-run_left main (j ∷ js) b (finite, h) = rw finite refl

started-run_left : (left : List RunJob) → length left ≤ 1 → started (run_left left) ≡ left
unfolding run_left
started-run_left [] h = refl
started-run_left (j ∷ []) h = refl
started-run_left (j ∷ (k ∷ js)) h = absurd (omega arith)

pub poll_receiver-Leaves :
    (main : ℕ) (b : Busy) (waits_at : ℕ → Bool) (retries n : ℕ)
    → (stopped : Bool) × Leaves main b stopped (poll_receiver waits_at retries n) []
unfolding poll_receiver exec
poll_receiver-Leaves main b waits_at zero n = elim (Bool-cases (waits_at n)) [
  | inl yet ↦ rw yet (false, (refl, refl))
  | inr later ↦ rw later (true, (refl, refl))
]
poll_receiver-Leaves main b waits_at (suc r) n = elim (Bool-cases (waits_at n)) [
  | inl yet ↦ rw yet (false, (refl, refl))
  | inr later ↦ rw later (poll_receiver-Leaves main b waits_at r (suc n))
]

-- Jobs on other cores, what is left of them on the main core, and the waits.
module _ (main : ℕ) (b : Busy) (cs : List ℕ) (d : Distinct cs) (f : Fresh main cs)
    (i : Idle cs b) where
  abbrev pub shared : List RunJob → List RunJob → List Call → List Call
  shared js left calls = launches cs js ++ (run_left left ++ (waits cs ++ calls))

  pub shared-Leaves :
      (js left : List RunJob) (stopped : Bool) (calls : List Call)
      → length js ≤ length cs
      → length left ≤ 1
      → Finite js
      → Finite left
      → Leaves main b stopped calls []
      → Leaves main b stopped (shared js left calls) (js ++ left)
  shared-Leaves js left stopped calls few one finite ends (runs, none_started) = (
    exec-append main (launches cs js) _ _
        ∙ ap (λ o. o >>= exec main (run_left left ++ (waits cs ++ calls)))
            (exec-launches main cs js b false d f i)
        ∙ exec-append main (run_left left) _ _
        ∙ ap (λ o. o >>= exec main (waits cs ++ calls))
            (exec-run_left main left (b ++ running cs js) ends)
        ∙ exec-append main (waits cs) _ _
        ∙ ap (λ o. o >>= exec main calls) (exec-waits main cs js b false i finite)
        ∙ runs,
    started-append (launches cs js) _
        ∙ ap₂ ◌++◌ (started-launches cs js few) (
            started-append (run_left left) _
            ∙ ap₂ ◌++◌ (started-run_left left one)
                (started-append (waits cs) calls ∙ ap₂ ◌++◌ (started-waits cs) none_started)
            ∙ append-nil left),
  )
