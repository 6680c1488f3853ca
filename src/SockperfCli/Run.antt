-- ===== src/SockperfCli/Run.antt =====
-- `run` of sockperf_cli/sockperf.cpp: the order of its calls, from the configuration to the end.
pub mod Plan
pub mod Lcores
pub mod Loops
pub mod Measure
pub mod Phases
pub mod Drive
pub mod Rest
pub mod Fit
pub mod Laws
pub mod Pool
use mathlib.Core.Option
use dpdk_tools.Common.{
  ℕ, zero, suc, ◌+◌, ◌-◌, ◌%◌, ◌^◌, ltb, ◌==◌, if◌then◌else◌, ◌>>=◌, Bool, true, false, not, List,
  [], ◌∷◌, ◌++◌, length, map, get_elem?, take, drop, min, Option, none, some,
}
use dpdk_tools.Dpdkx.Clock.{retry}
use dpdk_tools.Dpdkx.Config.Sockets.{Span}
use dpdk_tools.Dpdkx.Config.Sockets.Arranged.{cores_of}
use dpdk_tools.Dpdkx.Device.Make.{DeviceConfig, Device, Driver, Made, made, make_device, iota}
use dpdk_tools.Dpdkx.Device.Sinks.{Outcome, ok}
use dpdk_tools.SockperfCli.Warmup.{WarmedUp, warmed_up}
use dpdk_tools.SockperfCli.Run.Plan.{
  RunOptions, choose_socket, settle_config, Tests, plan_tests, mempool_cache_size, pool_size,
}

-- The jobs that `run` hands out: the device's rx jobs and its own, by their queues.
pub data RunJob : Type 0 where
  receiver sender : ℕ → RunJob
  latency_test : RunJob

-- The calls that start and stop jobs: `rte_eal_remote_launch` on a core, `run_single_job` on the main
-- core, `rte_eal_wait_lcore`, `rte_delay_ms`, `stop_jobs`, `rte_eal_mp_wait_lcore`, and the warm-up of
-- the first sender.
pub data Call : Type 0 where
  launch : ℕ → RunJob → Call
  run_here : RunJob → Call
  wait : ℕ → Call
  delay warm_up stop_jobs wait_all : Call

-- How `run` ends: the exceptions, the early returns, and the end of the routine.
pub data Ended : Type 0 where
  no_device no_socket no_svc_mempool not_started no_link_status not_attached no_mempool : Ended
  not_made : Made → Ended
  bad_address not_enough_cores bad_mac no_mac not_enough_senders not_warmed_up : Ended
  finished : Ended

-- The configuration of a device, and the socket in it.
pub record HostDevice : Type 0 where
  pub socket_id : ℕ
  pub config : DeviceConfig

-- The configuration of the host, and what the libraries and the other parts of the program answer:
-- `destination_ok` is `inet_pton`'s, `mempool` is by the number of elements, the cache and the data
-- room, `receiver_waits` is the state of the receiver's core at each poll.
pub record Machine : Type 0 where
  pub destination_ok : Bool
  pub devices : List HostDevice
  pub sockets : List Span
  pub cores : List ℕ
  pub main_core : ℕ
  pub driver : Driver
  pub svc_mempool : Bool
  pub started : ℕ
  pub link_status : ℕ
  pub attached : Outcome
  pub unformat_addr : List ℕ → Bool
  pub ether_address : Outcome
  pub cache_max : ℕ
  pub headroom : ℕ
  pub mempool : ℕ → ℕ → ℕ → Bool
  pub warmup : WarmedUp
  pub receiver_waits : ℕ → Bool

-- A loop that launches so many jobs, from an iterator into the cores on: the calls, and the jobs that
-- are left. None where an iterator is read past its end.
unfoldable pub launch_n : List ℕ → ℕ → List RunJob → ℕ → Option (List Call × List RunJob)
launch_n cores next js zero = some ([], js)
launch_n cores next [] (suc n) = none
launch_n cores next (j ∷ js) (suc n) = do
  core ← get_elem? cores next
  (calls, left) ← launch_n cores (suc next) js n
  some (launch core j ∷ calls, left)

unfoldable pub wait_n : List ℕ → ℕ → ℕ → Option (List Call)
wait_n cores next zero = some []
wait_n cores next (suc n) = do
  core ← get_elem? cores next
  calls ← wait_n cores (suc next) n
  some (wait core ∷ calls)

-- Whether the last of the cores is the main core; none on no cores.
unfoldable pub back_is : ℕ → List ℕ → Option Bool
back_is main [] = none
back_is main (c ∷ []) = some (c == main)
back_is main (c ∷ (d ∷ cs)) = back_is main (d ∷ cs)

unfoldable pub latency_calls : List ℕ → ℕ → Bool → Option (List Call)
latency_calls cores next true = some (run_here latency_test ∷ [])
latency_calls cores next false =
    get_elem? cores next >>= λ core. some (launch core latency_test ∷ (wait core ∷ []))

-- `if (next_send_job != end(send_jobs))`
unfoldable pub run_left : List RunJob → List Call
run_left [] = []
run_left (j ∷ js) = run_here j ∷ []

-- The wait for the receiver, by the retries left and the number of the poll.
unfoldable pub poll_receiver : (ℕ → Bool) → ℕ → ℕ → List Call
poll_receiver waits zero n = if waits n then [] else stop_jobs ∷ []
poll_receiver waits (suc retries) n =
    let rest = poll_receiver waits retries (suc n) in if waits n then [] else delay ∷ rest

-- The number of the senders that go to other cores, a `size_t`.
abbrev pub n_send_cores : Bool → ℕ → ℕ
n_send_cores true n = (n + (2 ^ 64 - 1)) % 2 ^ 64
n_send_cores false n = n

unfoldable pub throughput_calls :
    List ℕ → ℕ → Bool → List RunJob → (ℕ → Bool) → ℕ → Option (List Call)
unfolding launch_n wait_n run_left poll_receiver retry
throughput_calls cores next main_is_last senders waits wait_for = do
  (launches, left) ← launch_n cores next senders (n_send_cores main_is_last (length senders))
  waited ← wait_n cores next (n_send_cores main_is_last (length senders))
  some (launches ++ (run_left left ++ (waited ++ poll_receiver waits (retry wait_for).1 0)))

abbrev pub if_asked : ℕ → Option (List Call) → Option (List Call)
if_asked n calls = if n == 0 then some [] else calls

-- The two tests, and the wait for the receivers.
unfoldable pub measure : Machine → RunOptions → List ℕ → Tests → ℕ → ℕ → Option (List Call)
unfolding back_is latency_calls throughput_calls wait_n
measure m o cores tests receivers senders = do
  main_is_last ← back_is m.main_core cores
  latency ← if_asked tests.latency (latency_calls cores receivers main_is_last)
  throughput ← if_asked tests.throughput (
      throughput_calls cores receivers main_is_last (map sender (iota senders 0)) m.receiver_waits
        o.wait_for)
  waited ← wait_n cores 0 receivers
  some (latency ++ (throughput ++ (stop_jobs ∷ waited)))

-- `send_jobs.front()` is called on an empty vector if there are no senders.
unfoldable pub warm_calls : RunOptions → ℕ → Option (List Call)
warm_calls o senders =
    if o.no_warmup then some [] else if senders == 0 then none else some (warm_up ∷ [])

abbrev pub is_ok : Outcome → Bool
is_ok ok = true
is_ok o = false

abbrev pub is_warm : RunOptions → WarmedUp → Bool
is_warm o warmed_up = true
is_warm o w = o.no_warmup

-- The address of the destination: how the routine ends where it has none.
unfoldable pub destination_mac : Machine → Option (List ℕ) → Option Ended
destination_mac m none = if is_ok m.ether_address then none else some no_mac
destination_mac m (some text) = if m.unformat_addr text then none else some bad_mac

-- From the launched receivers on, by their number and that of the senders, which are as many as the
-- device's tx jobs.
unfoldable pub drive_senders :
    Machine → RunOptions → List ℕ → ℕ → Tests → ℕ → ℕ → Option (Ended × List Call)
unfolding destination_mac warm_calls measure mempool_cache_size pool_size
drive_senders m o cores tx_burst_size tests receivers senders =
    let n_cores = min (length cores - receivers) senders in
    let cache = mempool_cache_size m.cache_max o tx_burst_size in
    elim (destination_mac m o.destination_mac) [
      | some e ↦ some (e, [])
      | none ↦
          if not (m.mempool (pool_size o senders) cache (m.headroom + tests.payload_size))
          then some (no_mempool, [])
          else if ltb n_cores senders
          then some (not_enough_senders, [])
          else (warm_calls o senders >>= λ warming.
              if not (is_warm o m.warmup)
              then some (not_warmed_up, warming)
              else (measure m o cores tests receivers senders >>= λ calls.
                  some (finished, warming ++ calls)))
    ]

unfoldable pub drive : Machine → RunOptions → List ℕ → Device → Tests → Option (Ended × List Call)
unfolding launch_n drive_senders
drive m o cores device tests = do
  (launches, none_left) ← launch_n cores 0 (map receiver device.rx_jobs) (length device.rx_jobs)
  (e, calls) ←
      drive_senders m o cores device.config.tx.burst_size tests (length device.rx_jobs)
        (length device.tx_jobs)
  some (e, launches ++ calls)

-- The destructor of `job_sentry`.
abbrev pub sentry : Ended × List Call → Ended × List Call
sentry (e, calls) = (e, calls ++ (stop_jobs ∷ (wait_all ∷ [])))

unfoldable pub with_device : Machine → RunOptions → List ℕ → Device → Option (Ended × List Call)
unfolding drive plan_tests
with_device m o cores device =
    if not (m.started == 0)
    then some (not_started, [])
    else if not (m.link_status == 0)
    then some (no_link_status, [])
    else if not (is_ok m.attached)
    then some (sentry (not_attached, []))
    else Option.map sentry (drive m o cores device (plan_tests o device.config.tx.burst_size))

abbrev pub with_made : Machine → RunOptions → List ℕ → Made → Option (Ended × List Call)
with_made m o cores (made device) = with_device m o cores device
with_made m o cores failure = some (not_made failure, [])

unfoldable pub on_socket : Machine → RunOptions → HostDevice → Span → Option (Ended × List Call)
unfolding settle_config make_device with_device
on_socket m o dev socket = elim (settle_config dev.config dev.socket_id socket o.txq) [
  | none ↦ some (not_enough_cores, [])
  | some config ↦
      if m.svc_mempool
      then with_made m o (cores_of m.cores socket) (make_device m.driver config)
      else some (no_svc_mempool, [])
]

-- How the routine ends, and the calls that it makes; none for undefined behaviour.
unfoldable pub run : Machine → RunOptions → Option (Ended × List Call)
unfolding choose_socket on_socket
run m o =
    if m.destination_ok
    then (elim (m.devices) [
      | [] ↦ some (no_device, [])
      | dev ∷ others ↦ elim (choose_socket dev.socket_id m.sockets) [
        | none ↦ some (no_socket, [])
        | some socket ↦ on_socket m o dev socket
      ]
    ])
    else some (bad_address, [])
