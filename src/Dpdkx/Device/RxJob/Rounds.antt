-- ===== src/Dpdkx/Device/RxJob/Rounds.antt =====
-- A whole round of `rx_job::process`.
use dpdk_tools.Common.{ℕ, ◌+◌, ◌*◌, ◌%◌, ◌≡◌, not, if◌then◌else◌, List, some, length, ◌==◌, ◌&&◌}
use dpdk_tools.Dpdkx.Mbuf.{Mbuf}
use dpdk_tools.Dpdkx.Jobs.{idling}
use dpdk_tools.Dpdkx.Device.RxJob.{Shared, RxJob, Burst, process}
use dpdk_tools.Dpdkx.Device.RxJob.Frames.{AreSized}
use dpdk_tools.Dpdkx.Device.RxJob.Shares.{deliveries, to_free, to_deliver, to_leave}

-- The round counts for a quiet one if everything was left, unless that is a full burst.
abbrev pub checkpoint_after : ℕ → ℕ → RxJob → ℕ
checkpoint_after received left j =
    if left == received && not (left == j.burst_size)
    then (j.checkpoint + 2 * j.burst_size + 1) % 65536
    else (j.checkpoint + 1) % 65536

pub record Round (device : Shared) (l2_mod fuel : ℕ) (received : List Mbuf) (j : RxJob)
    : Type 0 where
  pub packets : List Mbuf
  pub sized : AreSized received packets
  pub burst : Burst
  pub job : RxJob
  pub result : process l2_mod fuel device received j ≡ some (burst, job, idling)
  pub freed : burst.freed ≡ to_free packets
  pub delivered : deliveries burst.handed ≡ to_deliver j.shared.sinks packets
  pub left : burst.left ≡ to_leave j.shared.sinks packets
  pub counted : job ≡ record j {
    last = job.last;
    checkpoint = checkpoint_after (length received) (length (to_leave j.shared.sinks packets)) j;
  }
