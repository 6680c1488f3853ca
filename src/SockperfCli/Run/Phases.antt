-- ===== src/SockperfCli/Run/Phases.antt =====
-- The latency test and the throughput test, where the cores have room for them.

use dpdk_tools.Common.{
  ℕ, zero, suc, ◌+◌, ◌-◌, ◌^◌, ◌≤◌, ◌<◌, ◌≡◌, refl, subst, ap, ◌∙◌, if◌then◌else◌, Bool, true,
  false, Bool-cases, inl, inr, List, [], ◌∷◌, map, length, take, drop, length-take, length-drop,
  take-append-drop, some, arith,
}
use dpdk_tools.Common.Distinct.{Distinct, Distinct-append, Fresh, Fresh-append}
use dpdk_tools.Dpdkx.Config.Sockets.Arranged.{MainLast}
use dpdk_tools.Dpdkx.Clock.{retry}
use dpdk_tools.Dpdkx.Device.Make.{iota}
use dpdk_tools.SockperfCli.Run.{
  RunJob, sender, latency_test, Call, launch, run_here, wait, latency_calls, n_send_cores,
  throughput_calls, back_is, run_left, poll_receiver,
}
use dpdk_tools.SockperfCli.Run.Lcores.{Busy, exec, Idle, Apart-Idle, running}
use dpdk_tools.SockperfCli.Run.Loops.{cores-apart, launch_n-launches, wait_n-waits, at_iterator}
use dpdk_tools.SockperfCli.Run.Measure.{
  Leaves, Finite, Finite-take, Finite-drop, Finite-senders, poll_receiver-Leaves, shared,
  shared-Leaves,
}

-- Cores that are all different, the main core last if at all, with room for the receivers and a core
-- for each sender, of which there is at least one.
pub record Room (main : ℕ) (cores : List ℕ) (last : Bool) (receivers senders : ℕ) : Type 0 where
  pub distinct : Distinct cores
  pub main_last : MainLast main cores
  pub back : back_is main cores ≡ some last
  pub some_sender : 1 ≤ senders
  pub fits : receivers + senders ≤ length cores
  pub small : senders < 2 ^ 64

length-map-sender : (qs : List ℕ) → length (map sender qs) ≡ length qs
length-map-sender [] = refl
length-map-sender (q ∷ qs) = ap suc (length-map-sender qs)

length-iota : (n i : ℕ) → length (iota n i) ≡ n
length-iota zero i = refl
length-iota (suc n) i = ap suc (length-iota n (suc i))

-- All but the last sender, if that one runs on the main core.
n_send_cores_bounds :
    (last : Bool) (n : ℕ) → 1 ≤ n → n < 2 ^ 64 → (n_send_cores last n + (if last then 1 else 0) ≡ n)
n_send_cores_bounds true n h g = omega arith
n_send_cores_bounds false n h g = omega arith

last_one : (last : Bool) (k n : ℕ) → k + (if last then 1 else 0) ≡ n → n - k ≤ 1
last_one true k n h = omega arith
last_one false k n h = omega arith

module _ (main : ℕ) (cores : List ℕ) (last : Bool) (receivers senders : ℕ)
    (room : Room main cores last receivers senders) (js : List RunJob) where
  abbrev pub busy : Busy
  busy = running (take receivers cores) js

  -- The cores behind those of the receivers, as many as jobs go to other cores.
  workers :
      (k : ℕ)
      → receivers + k + (if last then 1 else 0) ≤ length cores
      → Distinct (take k (drop receivers cores))
        × Fresh main (take k (drop receivers cores))
        × Idle (take k (drop receivers cores)) busy
  workers k h =
      let (d, f) =
        cores-apart main cores last receivers k room.distinct room.main_last room.back h in
      let (da, db, ab) = Distinct-append (take receivers cores) (take k (drop receivers cores)) d in
      let (fa, fb) = Fresh-append main (take receivers cores) (take k (drop receivers cores)) f in
      (db, fb, Apart-Idle (take receivers cores) (take k (drop receivers cores)) js ab)

  pub latency_calls-Leaves :
      (calls : List Call) × (latency_calls cores receivers last ≡ some calls)
      × Leaves main busy false calls (latency_test ∷ [])
  unfolding latency_calls exec run_left
  latency_calls-Leaves = elim (Bool-cases last) [
    | inl on_main ↦ rw on_main (run_here latency_test ∷ [], refl, (refl, refl))
    | inr elsewhere ↦
        let (core, read, at) =
          at_iterator cores receivers (omega (arith, room.fits, room.some_sender)) in
        let (d, f, i) = workers 1 (rw elsewhere (omega (arith, room.fits, room.some_sender))) in
        rw (elsewhere, read)
          (
            launch core latency_test ∷ (wait core ∷ []),
            refl,
            shared-Leaves main busy (core ∷ []) (subst (λ l. Distinct (take 1 l)) at d)
                (subst (λ l. Fresh main (take 1 l)) at f) (subst (λ l. Idle (take 1 l) busy) at i)
                (latency_test ∷ []) [] false [] (omega arith) (omega arith) (refl, tt) tt
                (refl, refl),
          )
  ]

  -- The senders, with the core that each of the first `k` runs on.
  throughput_calls-shared :
      (ss : List RunJob) (k : ℕ) (waits_at : ℕ → Bool) (wait_for : ℕ)
      → Finite ss
      → n_send_cores last (length ss) ≡ k
      → k + (if last then 1 else 0) ≡ length ss
      → receivers + length ss ≤ length cores
      → (calls : List Call) × (throughput_calls cores receivers last ss waits_at wait_for
          ≡ some calls)
        × ((stopped : Bool) × Leaves main busy stopped calls ss)
  unfolding throughput_calls
  throughput_calls-shared ss k waits_at wait_for finite is_k counted fits =
      let enough : receivers + k ≤ length cores = omega arith in
      let at_most_all : k ≤ length ss = omega arith in
      let few : length ss - k ≤ 1 = last_one last k (length ss) counted in
      let (d, f, i) = workers k (omega arith) in
      let (stop, polled) = poll_receiver-Leaves main busy waits_at (retry wait_for).1 0 in
      (
        shared main busy (take k (drop receivers cores)) d f i (take k ss) (drop k ss)
            (poll_receiver waits_at (retry wait_for).1 0),
        rw
            (
              is_k,
              launch_n-launches cores receivers ss k enough at_most_all,
              wait_n-waits cores receivers k enough,
            )
            refl,
        (
          stop,
          subst (Leaves main busy stop _) (take-append-drop k ss) (
              shared-Leaves main busy (take k (drop receivers cores)) d f i (take k ss) (drop k ss)
                stop _
                (omega (
                  arith,
                  length-take k ss,
                  length-take k (drop receivers cores),
                  length-drop receivers cores,
                ))
                (omega (arith, length-drop k ss, few)) (Finite-take k ss finite)
                (Finite-drop k ss finite) polled),
        ),
      )

  -- All senders, by the number of the device's tx jobs.
  pub throughput_calls-Leaves :
      (waits_at : ℕ → Bool) (wait_for : ℕ)
      → (calls : List Call) × (throughput_calls cores receivers last
            (map sender (iota senders 0))
            waits_at
            wait_for
          ≡ some calls)
        × ((stopped : Bool) × Leaves main busy stopped calls (map sender (iota senders 0)))
  throughput_calls-Leaves waits_at wait_for =
      let n : length (map sender (iota senders 0)) ≡ senders =
        length-map-sender (iota senders 0) ∙ length-iota senders 0 in
      throughput_calls-shared (map sender (iota senders 0)) _ waits_at wait_for
        (Finite-senders (iota senders 0)) refl
        (n_send_cores_bounds last _ (omega (arith, n, room.some_sender))
          (omega (arith, n, room.small)))
        (omega (arith, n, room.fits))
