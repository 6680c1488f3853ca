-- ===== src/SockperfCli/Run/Loops.antt =====
-- The loops of `run` over iterators into the cores, as lists of calls.

use dpdk_tools.Common.{
  ℕ, zero, suc, ◌+◌, ◌≤◌, ◌<◌, ◌≡◌, refl, subst, Bool, true, false, if◌then◌else◌, List, [], ◌∷◌,
  ◌++◌, length, get_elem?, take, drop, take_more, some, arith,
}
use dpdk_tools.Common.Distinct.{Fresh, Fresh-take, Distinct, Distinct-take}
use dpdk_tools.Dpdkx.Config.Sockets.Arranged.{MainLast}
use dpdk_tools.SockperfCli.Run.{RunJob, launch_n, wait_n, back_is}
use dpdk_tools.SockperfCli.Run.Lcores.{launches, waits}

-- What an iterator reads, and where it stands then.
pub at_iterator :
    (cores : List ℕ) (next : ℕ)
    → next < length cores
    → (c : ℕ) × (get_elem? cores next ≡ some c) × (drop next cores ≡ c ∷ drop (suc next) cores)
at_iterator [] next h = absurd (omega arith)
at_iterator (c ∷ cs) zero h = (c, refl, refl)
at_iterator (c ∷ cs) (suc n) h = at_iterator cs n (omega arith)

pub launch_n-launches :
    (cores : List ℕ) (next : ℕ) (js : List RunJob) (k : ℕ)
    → next + k ≤ length cores
    → k ≤ length js
    → launch_n cores next js k ≡ some (launches (take k (drop next cores)) (take k js), drop k js)
unfolding launch_n
launch_n-launches cores next js zero h g = refl
launch_n-launches cores next [] (suc k) h g = absurd (omega arith)
launch_n-launches cores next (j ∷ js) (suc k) h g =
    let (c, read, at) = at_iterator cores next (omega arith) in
    rw (read, at, launch_n-launches cores (suc next) js k (omega arith) (omega arith)) refl

pub wait_n-waits :
    (cores : List ℕ) (next k : ℕ)
    → next + k ≤ length cores
    → wait_n cores next k ≡ some (waits (take k (drop next cores)))
unfolding wait_n
wait_n-waits cores next zero h = refl
wait_n-waits cores next (suc k) h =
    let (c, read, at) = at_iterator cores next (omega arith) in
    rw (read, at, wait_n-waits cores (suc next) k (omega arith)) refl

-- Before the end, and anywhere if the last core is another, there are workers only.
MainLast-Fresh :
    (main : ℕ) (cs : List ℕ) (last : Bool) (n : ℕ)
    → MainLast main cs
    → back_is main cs ≡ some last
    → n + (if last then 1 else 0) ≤ length cs
    → Fresh main (take n cs)
unfolding back_is
MainLast-Fresh main cs last zero m b h = tt
MainLast-Fresh main [] last (suc n) m b h = absurd (omega arith)
MainLast-Fresh main (c ∷ []) true (suc n) m b h = absurd (omega arith)
MainLast-Fresh main (c ∷ []) false (suc n) m b h = (λ e. ground arith, Fresh-take main n [] tt)
MainLast-Fresh main (c ∷ (d ∷ cs)) last (suc n) (ne, m) b h =
    (ne, MainLast-Fresh main (d ∷ cs) last n m b (omega arith))

-- The cores that the first loop and a later one read: all different, and workers.
pub cores-apart :
    (main : ℕ) (cs : List ℕ) (last : Bool) (a b : ℕ)
    → Distinct cs
    → MainLast main cs
    → back_is main cs ≡ some last
    → a + b + (if last then 1 else 0) ≤ length cs
    → Distinct (take a cs ++ take b (drop a cs)) × Fresh main (take a cs ++ take b (drop a cs))
cores-apart main cs last a b d m e h = (
  subst Distinct (take_more a b cs) (Distinct-take (a + b) cs d),
  subst (Fresh main) (take_more a b cs) (MainLast-Fresh main cs last (a + b) m e h),
)
