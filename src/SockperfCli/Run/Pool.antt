-- ===== src/SockperfCli/Run/Pool.antt =====
-- The numbers that `run` settles on.
use dpdk_tools.Common.{
  ℕ, ◌+◌, ◌*◌, ◌/◌, ◌%◌, ◌^◌, ◌≤◌, ◌<◌, ◌≡◌, ◌⊎◌, inl, inr, ◌==◌, Bool-cases, arith,
}
use dpdk_tools.Sockperf.Message.{header_size}
use dpdk_tools.SockperfCli.Run.Plan.{
  RunOptions, plan_tests, mempool_size, at_most, mempool_cache_size, pool_size,
}

at_most-le : (bound n : ℕ) → (at_most bound n ≤ bound) × (at_most bound n ≤ n)
at_most-le bound n = ground arith

within :
    (cache_max m q c inner : ℕ)
    → 2 ≤ m
    → m ≤ q
    → q < 2 ^ 32
    → c ≤ cache_max / 4
    → c ≤ inner
    → inner ≤ (m + 1) % 2 ^ 32 / 2
    → (c ≤ cache_max) × (3 * c ≤ 2 * (q % 2 ^ 32))
within cache_max m q c inner two le fits a b d = (omega arith, omega arith)

le-mul : (m n : ℕ) → 1 ≤ n → m ≤ m * n
le-mul m n h = grind arith

-- Where the pool has two elements or more for a tx job, and no more than 32 bits count in all, the
-- cache is what DPDK allows: not above its limit, and not above two thirds of the pool.
pub mempool_cache_size_bounds :
    (cache_max : ℕ) (o : RunOptions) (tx_burst_size tx_jobs : ℕ)
    → 2 ≤ mempool_size o
    → 1 ≤ tx_jobs
    → mempool_size o * tx_jobs < 2 ^ 32
    → (mempool_cache_size cache_max o tx_burst_size ≤ cache_max)
      × (3 * mempool_cache_size cache_max o tx_burst_size ≤ 2 * pool_size o tx_jobs)
unfolding mempool_cache_size pool_size
mempool_cache_size_bounds cache_max o tx_burst_size tx_jobs two jobs fits =
    let half = (mempool_size o + 1) % 2 ^ 32 / 2 in
    let inner = at_most half (tx_burst_size * 16) in
    let (a, b) = at_most-le (cache_max / 4) inner in
    let c = (at_most-le half (tx_burst_size * 16)).0 in
    let e : mempool_size o ≤ mempool_size o * tx_jobs = le-mul (mempool_size o) tx_jobs jobs in
    within cache_max (mempool_size o) (mempool_size o * tx_jobs) _ _ two e fits a b c

-- A test is always run; the throughput test fills a burst, and a packet holds a header.
pub plan_tests_bounds :
    (o : RunOptions) (burst : ℕ)
    → ((1 ≤ (plan_tests o burst).latency) ⊎ (1 ≤ (plan_tests o burst).throughput))
      × (((plan_tests o burst).throughput ≡ 0) ⊎ (burst ≤ (plan_tests o burst).throughput))
      × (header_size ≤ (plan_tests o burst).payload_size)
unfolding plan_tests
plan_tests_bounds o burst = (
  elim (Bool-cases (o.latency == 0)) [
    | inr asked ↦ inl (ground arith)
    | inl not_asked ↦ inr (ground arith)
  ],
  elim (Bool-cases (o.throughput == 0)) [
    | inr asked ↦ inr (ground arith)
    | inl not_asked ↦ elim (Bool-cases (o.latency == 0)) [
      | inr asked ↦ inl (ground arith)
      | inl neither ↦ inr (ground arith)
    ]
  ],
  ground arith,
)
