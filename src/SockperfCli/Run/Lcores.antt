-- ===== src/SockperfCli/Run/Lcores.antt =====
-- The lcores as the EAL documents them, on which the calls of `run` are tried out: a job is launched
-- on a worker that waits, and a wait for a receiver that was not told to stop is a deadlock.
use dpdk_tools.Common.{
  ℕ, ◌≡◌, ◌≢◌, refl, sym, ap, ◌∙◌, ◌==◌, ◌&&◌, not, if◌then◌else◌, ◌>>=◌, Bool, true, false, List,
  [], ◌∷◌, ◌++◌, append_assoc, append-nil, Option, none, some, arith,
}
use dpdk_tools.Common.Distinct.{Fresh, Distinct, Apart}
use dpdk_tools.SockperfCli.Run.{
  RunJob, receiver, Call, launch, run_here, wait, delay, warm_up, stop_jobs, wait_all,
}

abbrev pub Busy : Type 0
Busy = List (ℕ × RunJob)

pub record Lcores : Type 0 where
  pub busy : Busy
  pub stopped : Bool

abbrev pub at_rest : Lcores
at_rest = record { busy = []; stopped = false }

abbrev pub holding : Bool → Busy → Lcores
holding stopped b = record { busy = b; stopped = stopped }

abbrev pub job_on : ℕ → Busy → Option RunJob
job_on c [] = none
job_on c ((d, j) ∷ b) = if d == c then some j else job_on c b

abbrev pub remove : ℕ → Busy → Busy
remove c [] = []
remove c ((d, j) ∷ b) = if d == c then b else (d, j) ∷ remove c b

-- A receiver polls its queue until the jobs are stopped. The tests are taken to end by themselves:
-- whether a sender does depends on its pool, which has to hold the buffers of a burst.
abbrev pub polls_on : RunJob → Bool
polls_on (receiver q) = true
polls_on j = false

abbrev pub any_polls : Busy → Bool
any_polls [] = false
any_polls ((c, j) ∷ b) = if polls_on j then true else any_polls b

-- None: the launch would be refused, or the wait would be for a receiver that was not told to stop.
unfoldable pub step : ℕ → Call → Lcores → Option Lcores
step main (launch c j) s = if c == main then none else elim (job_on c s.busy) [
  | some k ↦ none
  | none ↦ some (record s { busy = s.busy ++ (c, j) ∷ [] })
]
step main (run_here j) s = if polls_on j && not s.stopped then none else some s
step main (wait c) s = elim (job_on c s.busy) [
  | none ↦ some s
  | some j ↦
      if polls_on j && not s.stopped then none else some (record s { busy = remove c s.busy })
]
step main wait_all s =
    if any_polls s.busy && not s.stopped then none else some (record s { busy = [] })
step main stop_jobs s = some (record s { stopped = true })
step main delay s = some s
step main warm_up s = some s

unfoldable pub exec : ℕ → List Call → Lcores → Option Lcores
unfolding step
exec main [] s = some s
exec main (c ∷ cs) s = step main c s >>= exec main cs

>>=_assoc :
    (o : Option Lcores) (f g h : Lcores → Option Lcores)
    → ((t : Lcores) → f t ≡ (g t >>= h))
    → (o >>= f) ≡ ((o >>= g) >>= h)
>>=_assoc none f g h e = refl
>>=_assoc (some t) f g h e = e t

pub exec-append :
    (main : ℕ) (xs ys : List Call) (s : Lcores)
    → exec main (xs ++ ys) s ≡ (exec main xs s >>= exec main ys)
unfolding exec
exec-append main [] ys s = refl
exec-append main (x ∷ xs) ys s = >>=_assoc (step main x s) _ _ _ (exec-append main xs ys)

-- The cores with the jobs that they run.
abbrev pub running : List ℕ → List RunJob → Busy
running cs [] = []
running [] (j ∷ js) = []
running (c ∷ cs) (j ∷ js) = (c, j) ∷ running cs js

abbrev pub launches : List ℕ → List RunJob → List Call
launches cs [] = []
launches [] (j ∷ js) = []
launches (c ∷ cs) (j ∷ js) = launch c j ∷ launches cs js

abbrev pub waits : List ℕ → List Call
waits [] = []
waits (c ∷ cs) = wait c ∷ waits cs

abbrev pub Idle : List ℕ → Busy → Type 0
Idle [] b = Unit
Idle (c ∷ cs) b = (job_on c b ≡ none) × Idle cs b

==-false : (c d : ℕ) → c ≢ d → (c == d) ≡ false
==-false c d ne = ground (arith, ne)

==_self : (c : ℕ) → (c == c) ≡ true
==_self c = ground arith

job_on-running :
    (c : ℕ) (cs : List ℕ) (js : List RunJob) → Fresh c cs → job_on c (running cs js) ≡ none
job_on-running c cs [] h = refl
job_on-running c [] (j ∷ js) h = refl
job_on-running c (d ∷ ds) (j ∷ js) (ne, h) =
    rw (==-false d c (λ e. ne (sym e))) (job_on-running c ds js h)

pub Apart-Idle : (xs ys : List ℕ) (js : List RunJob) → Apart xs ys → Idle ys (running xs js)
Apart-Idle xs [] js h = tt
Apart-Idle xs (y ∷ ys) js (f, h) = (job_on-running y xs js f, Apart-Idle xs ys js h)

job_on_cons :
    (c e : ℕ) (k : RunJob) (b : Busy)
    → job_on c ((e, k) ∷ b) ≡ none
    → ((e == c) ≡ false) × (job_on c b ≡ none)
job_on_cons c e k b h = (ground arith, ground arith)

-- A job on another core changes nothing for a core.
job_on-append :
    (c d : ℕ) (j : RunJob) (b : Busy)
    → d ≢ c
    → job_on c b ≡ none
    → job_on c (b ++ (d, j) ∷ []) ≡ none
job_on-append c d j [] ne h = rw (==-false d c ne) refl
job_on-append c d j ((e, k) ∷ b) ne h =
    let (other, rest) = job_on_cons c e k b h in rw other (job_on-append c d j b ne rest)

Idle-append :
    (c : ℕ) (j : RunJob) (cs : List ℕ) (b : Busy)
    → Fresh c cs
    → Idle cs b
    → Idle cs (b ++ (c, j) ∷ [])
Idle-append c j [] b f h = tt
Idle-append c j (d ∷ ds) b (ne, f) (i, h) = (job_on-append d c j b ne i, Idle-append c j ds b f h)

-- Launches on distinct workers that wait all succeed.
pub exec-launches :
    (main : ℕ) (cs : List ℕ) (js : List RunJob) (b : Busy) (stopped : Bool)
    → Distinct cs
    → Fresh main cs
    → Idle cs b
    → exec main (launches cs js) (holding stopped b) ≡ some (holding stopped (b ++ running cs js))
unfolding exec
exec-launches main cs [] b stopped d f i =
    ap (λ (l : Busy). some (holding stopped l)) (sym (append-nil b))
exec-launches main [] (j ∷ js) b stopped d f i =
    ap (λ (l : Busy). some (holding stopped l)) (sym (append-nil b))
exec-launches main (c ∷ cs) (j ∷ js) b stopped (fresh, d) (ne, f) (i, is) =
    rw (==-false c main (λ e. ne (sym e)), i)
      (exec-launches main cs js (b ++ (c, j) ∷ []) stopped d f (Idle-append c j cs b fresh is)
        ∙ ap (λ (l : Busy). some (holding stopped l))
            (append_assoc b ((c, j) ∷ []) (running cs js)))

-- None of the jobs is a receiver, or all are told to stop.
abbrev pub Ends : Bool → List RunJob → Type 0
Ends stopped [] = Unit
Ends stopped (j ∷ js) = ((polls_on j && not stopped) ≡ false) × Ends stopped js

job_on-middle :
    (c : ℕ) (j : RunJob) (b r : Busy) → job_on c b ≡ none → job_on c (b ++ (c, j) ∷ r) ≡ some j
job_on-middle c j [] r h = rw (==_self c) refl
job_on-middle c j ((e, k) ∷ b) r h =
    let (other, rest) = job_on_cons c e k b h in rw other (job_on-middle c j b r rest)

remove_middle :
    (c : ℕ) (j : RunJob) (b r : Busy) → job_on c b ≡ none → remove c (b ++ (c, j) ∷ r) ≡ b ++ r
remove_middle c j [] r h = rw (==_self c) refl
remove_middle c j ((e, k) ∷ b) r h =
    let (other, rest) = job_on_cons c e k b h in
    rw other (ap (◌∷◌ (e, k)) (remove_middle c j b r rest))

-- The waits for jobs that end bring back what was before their launches.
pub exec-waits :
    (main : ℕ) (cs : List ℕ) (js : List RunJob) (b : Busy) (stopped : Bool)
    → Idle cs b
    → Ends stopped js
    → exec main (waits cs) (holding stopped (b ++ running cs js)) ≡ some (holding stopped b)
unfolding exec
exec-waits main [] [] b stopped i e = ap (λ (l : Busy). some (holding stopped l)) (append-nil b)
exec-waits main [] (j ∷ js) b stopped i e =
    ap (λ (l : Busy). some (holding stopped l)) (append-nil b)
exec-waits main (c ∷ cs) [] b stopped (i, is) e =
    rw (append-nil b, i, step) (exec-waits main cs [] b stopped is e)
exec-waits main (c ∷ cs) (j ∷ js) b stopped (i, is) (e, es) =
    rw (job_on-middle c j b (running cs js) i, e, remove_middle c j b (running cs js) i, step)
      (exec-waits main cs js b stopped is es)
