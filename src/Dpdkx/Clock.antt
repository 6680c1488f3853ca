-- ===== src/Dpdkx/Clock.antt =====
-- Time: dpdkx/utils.hpp (`retry`, `ns_timer`), dpdkx/detail/numerics.hpp (`mul_div`),
-- dpdkx/detail/utils.cpp (`estimate_clock_freq`) and `device::timestamp_fix`, `device::read_clock`,
-- `device::link_status`. What DPDK's clocks and links answer is an argument.
pub mod Laws
use dpdk_tools.Common.{
  ℕ, zero, suc, ◌+◌, ◌-◌, ◌*◌, ◌/◌, ◌%◌, ◌^◌, leb, ◌==◌, if◌then◌else◌, Bool, true, false, not,
  ◌&&◌, Option, none, some,
}
use dpdk_tools.Common.ByteOrder.{bswap}

abbrev pub u64 : ℕ → ℕ
u64 n = n % 2 ^ 64

-- NS_PER_S
abbrev pub ns_per_s : ℕ
ns_per_s = 1000000000

abbrev pub default_timeout : ℕ
default_timeout = 100

-- `dpdkx::retry`, in milliseconds: how long to wait at a time, and how often. The count is an `int`.
unfoldable pub retry : ℕ → ℕ × ℕ
retry timeout =
    if leb timeout default_timeout
    then (timeout, 1)
    else (default_timeout, (timeout + default_timeout - 1) / default_timeout % 2 ^ 32)

-- The product is taken in 128 bits, and the quotient cut to 64.
unfoldable pub mul_div : ℕ → ℕ → ℕ → ℕ
mul_div x n d = u64 (x * n % 2 ^ 128 / d)

unfoldable pub timestamp_fix : ℕ → ℕ → ℕ
unfolding mul_div
timestamp_fix clock_hz timestamp = mul_div timestamp ns_per_s clock_hz

-- The time at which `latency_test_job` asks the device to send, in ticks of its clock.
unfoldable pub ticks_of_ns : ℕ → ℕ → ℕ
unfolding mul_div
ticks_of_ns clock_hz ns = mul_div ns clock_hz ns_per_s

-- `rte_get_timer_cycles() * NS_PER_S / rte_get_timer_hz()`
unfoldable pub ns_timer : ℕ → ℕ → ℕ
ns_timer timer_hz timer_cycles = u64 (timer_cycles * ns_per_s) / timer_hz

-- `clock` is what `rte_eth_read_clock` stores, `none` where it fails.
unfoldable pub read_clock : Bool → Bool → ℕ → Option ℕ → ℕ → ℕ
unfolding timestamp_fix
read_clock clock_enabled clock_bswap clock_hz clock timer =
    if clock_enabled then answer clock else timer
  where
    answer : Option ℕ → ℕ
    answer none = timer
    answer (some ts) = timestamp_fix clock_hz (if clock_bswap then bswap 8 ts else ts)

-- Two readings of the device's clock, `none` where one fails, with the cycle counter at each.
unfoldable pub estimate_clock_freq : ℕ → Option ℕ → ℕ → Option ℕ → ℕ → ℕ × Bool
estimate_clock_freq tsc_hz none tsc_base dev tsc = (0, false)
estimate_clock_freq tsc_hz (some dev_base) tsc_base none tsc = (0, false)
estimate_clock_freq tsc_hz (some dev_base) tsc_base (some dev) tsc =
    let swap = not (dev / 2 ^ 32 == dev_base / 2 ^ 32) in
    let ticks =
      if swap
      then u64 (bswap 8 dev + 2 ^ 64 - bswap 8 dev_base)
      else u64 (dev + 2 ^ 64 - dev_base) in
    (u64 (tsc_hz * ticks) / u64 (tsc + 2 ^ 64 - tsc_base), swap)

-- What `rte_eth_link_get_nowait` answers at one call: its result, and whether the link is up.
pub record LinkPoll : Type 0 where
  pub res : ℕ
  pub up : Bool

-- The `do … while (--retries)` loop: the result, the last status that was stored, and the polls
-- that were made. `polls n` is the answer to the call number `n`; `retries` is not 0, as `retry`
-- gives it.
unfoldable pub poll_link : (ℕ → LinkPoll) → ℕ → ℕ → ℕ × Bool × ℕ
poll_link polls zero n = (0, (polls n).up, n)
poll_link polls (suc retries) n =
    let rest = poll_link polls retries (n + 1) in
    let last : ℕ × Bool × ℕ = (0, (polls n).up, n + 1) in
    if (polls n).res == 0 && (polls n).up
    then ((polls n).res, (polls n).up, n + 1)
    else if retries == 0
    then last
    else rest

unfoldable pub link_status : (ℕ → LinkPoll) → ℕ → ℕ × Bool × ℕ
unfolding retry poll_link
link_status polls timeout = poll_link polls (retry timeout).1 0
