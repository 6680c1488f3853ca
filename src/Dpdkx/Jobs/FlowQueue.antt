-- ===== src/Dpdkx/Jobs/FlowQueue.antt =====
-- dpdkx/jobs.cpp: `flow::rx_queue::run_exclusive`, by the number of the poll: whether jobs run, whether
-- the queue has a channel, and the packets that it receives.

use dpdk_tools.Common.{
  ℕ, zero, suc, ◌<◌, ◌≡◌, map, length, if◌then◌else◌, ◌>>=◌, Bool, List, [], ◌∷◌, Option, none,
  some,
}
use dpdk_tools.Dpdkx.Mbuf.{Mbuf}
use dpdk_tools.Dpdkx.Mbuf.L2.{update_l2size}
use dpdk_tools.Dpdkx.Device.RxJob.{headers_set}
use dpdk_tools.Dpdkx.Device.RxJob.Frames.{AreSized}

-- How the wait for a channel ends: jobs are stopped, or there is one at a poll.
pub data Waited : Type 0 where
  stopped : Waited
  assigned_at : ℕ → Waited

-- What a channel gets from so many polls, from one on.
pub data HandedOn (rx_burst : ℕ → List Mbuf) : ℕ → ℕ → List (List Mbuf) → Type 0 where
  over : {n : ℕ} → HandedOn rx_burst zero n []
  silent :
      {count n : ℕ} {bursts : List (List Mbuf)}
      → rx_burst n ≡ []
      → HandedOn rx_burst count (suc n) bursts
      → HandedOn rx_burst (suc count) n bursts
  handed :
      {count n : ℕ} {bursts : List (List Mbuf)} (sized : List Mbuf)
      → 0 < length (rx_burst n)
      → AreSized (rx_burst n) sized
      → HandedOn rx_burst count (suc n) bursts
      → HandedOn rx_burst (suc count) n (map headers_set sized ∷ bursts)

module _ (l2_mod l2_fuel : ℕ) where
  -- The lengths of the headers, set in each packet of a burst.
  abbrev pub set_lengths : List Mbuf → Option (List Mbuf)
  set_lengths [] = some []
  set_lengths (b ∷ bs) = do
    (proto, b') ← update_l2size l2_mod l2_fuel b
    bs' ← set_lengths bs
    some (headers_set b' ∷ bs')

  -- The bursts that go to the channel; an empty one does not.
  abbrev pub hand_burst : List Mbuf → Option (List (List Mbuf)) → Option (List (List Mbuf))
  hand_burst [] rest = rest
  hand_burst (b ∷ bs) rest = do burst ← set_lengths (b ∷ bs); bursts ← rest; some (burst ∷ bursts)

  module _ (running assigned : ℕ → Bool) (rx_burst : ℕ → List Mbuf) where
    unfoldable pub wait_assigned : ℕ → ℕ → Option Waited
    wait_assigned zero n = none
    wait_assigned (suc fuel) n =
        let rest = wait_assigned fuel (suc n) in
        if assigned n then some (assigned_at n) else if running n then rest else some stopped

    unfoldable pub poll_bursts : ℕ → ℕ → Option (List (List Mbuf))
    poll_bursts zero n = none
    poll_bursts (suc fuel) n =
        let rest = poll_bursts fuel (suc n) in
        if running n then hand_burst (rx_burst n) rest else some []

    abbrev pub after_wait : ℕ → Waited → Option (List (List Mbuf))
    after_wait fuel stopped = some []
    after_wait fuel (assigned_at n) = poll_bursts fuel n

    unfoldable pub run_flow_queue : ℕ → Option (List (List Mbuf))
    unfolding wait_assigned poll_bursts
    run_flow_queue fuel = wait_assigned fuel 0 >>= after_wait fuel
