-- ===== src/SockperfCli/Warmup.antt =====
-- sockperf_cli/utils.cpp: `tx_job::warmup`, which sends marked packets until one has come back.
use dpdk_tools.Common.{
  ℕ, zero, suc, ◌+◌, ltb, ◌==◌, ◌&&◌, ◌||◌, if◌then◌else◌, Bool, true, false, not, List, Option,
  none, some, bit_and,
}
use dpdk_tools.Dpdkx.Mbuf.{Mbuf}
use dpdk_tools.Dpdkx.Jobs.{JobState, run_jobs_once, is_empty}
use dpdk_tools.Sockperf.Seqn.{warmup}

-- The answers of the routine.
pub data WarmedUp : Type 0 where
  warmed_up owner_dead timed_out : WarmedUp

-- The variables of the first loop: its counter, the last number, and the packet that waits for room
-- in the ring.
pub record Warming : Type 0 where
  pub i : ℕ
  pub seqn : ℕ
  pub buffer : Option Mbuf

-- `W` is the state of the world. `last` is the number of the channel's last warm-up message,
-- `suspended` reads `jobs_suspended`, `over` and `over_again` compare the clock with the starts of
-- the two loops and the timeout; `prepare` allocates a packet and prepares it with a number, and
-- `enque` offers it to the ring.
module _ {W J : Type 0} (process : J → W → JobState × W) (last : W → Option ℕ)
    (suspended over over_again : W → Bool) (prepare : ℕ → W → Option Mbuf × W)
    (enque : Mbuf → W → Bool × W) where
  abbrev has_last : Option ℕ → Bool
  has_last none = false
  has_last (some n) = true

  -- A packet is made if none waits; the number is taken only if there was a buffer.
  unfoldable pub make_one : Warming → W → Warming × W
  unfolding warmup
  make_one s w = elim (s.buffer) [
    | some b ↦ (s, w)
    | none ↦
        let (got, w') = prepare (warmup (s.seqn + 1)) w in
        elim got [ none ↦ (s, w') | some b ↦ (record s { seqn = s.seqn + 1; buffer = some b }, w') ]
  ]

  unfoldable pub offer_one : Warming → W → Warming × W
  offer_one s w = elim (s.buffer) [
    | none ↦ (s, w)
    | some b ↦
        let (taken, w') = enque b w in if taken then (record s { buffer = none }, w') else (s, w')
  ]

  -- Every sixteenth turn sends.
  unfoldable pub send_one : Warming → W → Warming × W
  unfolding make_one offer_one
  send_one s w =
      if bit_and s.i 15 == 0 then (let (s', w') = make_one s w in offer_one s' w') else (s, w)

  -- The second loop, on fuel: the jobs go on until the last packet has come back. The message is
  -- dereferenced without a test: none also if there is no message.
  unfoldable pub await : ℕ → ℕ → List J → W → Option WarmedUp
  unfolding warmup run_jobs_once
  await zero seqn jobs w = none
  await (suc fuel) seqn jobs w =
      let (jobs', state, w') = run_jobs_once process jobs w in
      let rest = await fuel seqn jobs' w' in
      if suspended w then some warmed_up else elim (last w) [
        | none ↦ none
        | some m ↦ if m == warmup seqn || over_again w then some warmed_up else rest
      ]

  -- The test of the first loop.
  abbrev pub warming : Warming → W → Bool
  warming s w = (not (has_last (last w)) || ltb s.seqn 16) && not (suspended w)

  -- The first loop, on fuel, and what follows it.
  unfoldable pub warm_up : ℕ → Warming → List J → W → Option WarmedUp
  unfolding send_one run_jobs_once await
  warm_up zero s jobs w = none
  warm_up (suc fuel) s jobs w =
      let (s', w₁) = send_one s w in
      let (jobs', state, w₂) = run_jobs_once process jobs w₁ in
      let rest = warm_up fuel (record s' { i = s'.i + 1 }) jobs' w₂ in
      let waited = await fuel s.seqn jobs w in
      if warming s w
      then (if is_empty jobs then some owner_dead else if over w₁ then some timed_out else rest)
      else waited
