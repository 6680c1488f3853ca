-- ===== src/Dpdkx/Device/Ports.antt =====
-- `device::next_src_port`: a counter that is to start again at the configured port when it wraps.
use dpdk_tools.Common.{
  ℕ, zero, suc, ◌+◌, ◌-◌, ◌%◌, ◌≤◌, ◌<◌, ◌≡◌, ltb, ◌==◌, if◌then◌else◌, Option, none, some, arith,
}

-- The loop on fuel, with no other thread between its steps: `floor` is `config_.next_src_port`, and
-- a failed exchange stores the counter's value in `res`. The result is `res` and the counter.
pub next_src_port : ℕ → ℕ → ℕ → Option (ℕ × ℕ)
next_src_port zero floor counter = none
next_src_port (suc fuel) floor counter =
    let counter' = (counter + 1) % 65536 in
    let again = next_src_port fuel floor floor in
    if ltb counter floor
    then if counter' == counter then again else some (counter', counter')
    else some (counter, counter')

-- The ports that `n` calls hand out, one after the other.
pub ports : ℕ → ℕ → ℕ → Option ℕ
ports zero floor counter = none
ports (suc n) floor counter = elim (next_src_port 1 floor counter) [
  | none ↦ none
  | some (port, counter') ↦
      let later = ports n floor counter' in if n == 0 then some port else later
]

-- While the counter is below the floor, as it is once it has wrapped to 0, each call hands out the
-- port after the last one, up to the floor: ports below the configured range. Every such call ends in
-- its first round.
ports_wrapped :
    (floor n counter : ℕ)
    → floor < 65536
    → counter + suc n ≤ floor
    → ports (suc n) floor counter ≡ some (counter + suc n)
unfolding ports next_src_port
ports_wrapped floor zero counter hf h = ground arith
ports_wrapped floor (suc n) counter hf h = ground (arith, ports_wrapped floor n (counter + 1))

-- When the counter comes up to the floor again, the floor is handed out by two calls in a row.
pub ports_repeat :
    (floor : ℕ)
    → 0 < floor
    → floor < 65535
    → (ports 1 floor (floor - 1) ≡ some floor) × (ports 2 floor (floor - 1) ≡ some floor)
unfolding ports next_src_port
ports_repeat floor pos h = ground arith
