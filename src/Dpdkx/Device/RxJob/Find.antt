-- ===== src/Dpdkx/Device/RxJob/Find.antt =====
-- The cached index answers as a search would, while no newer sinks are due.
use dpdk_tools.Common.{
  ℕ, zero, suc, ◌%◌, ◌+◌, ◌≤◌, ◌<◌, ◌≡◌, ◌∙◌, refl, sym, ap, ◌==◌, [], ◌∷◌, Option, none, some,
  get_elem?, arith, Bool-cases, Option-cases, inl, inr, length, ==_iff, get_elem?_past, ◌≢◌,
}
use dpdk_tools.Dpdkx.Device.Sinks.{SinkEntry, Sinks, find_sink}
use dpdk_tools.Dpdkx.Device.RxJob.{
  Shared, RxJob, try_reload_sinks, find_sink_at, answer, relocate, consult, find_rx_channel,
}

-- The channel of the first sink with the port.
abbrev pub entry_channel : Option SinkEntry → Option ℕ
entry_channel none = none
entry_channel (some e) = e.channel

abbrev pub channel_for : Sinks → ℕ → Option ℕ
channel_for sinks port = entry_channel (find_sink sinks port)

-- The vector begins with the entry that the device puts there, which has no channel; the cached index
-- is that of the first sink with its port; newer sinks are not due; and an index fits `last_`.
pub record Stable (j : RxJob) : Type 0 where
  pub first : SinkEntry
  pub first_at : get_elem? j.shared.sinks 0 ≡ some first
  pub first_channel : first.channel ≡ none
  pub cached : SinkEntry
  pub cached_at : get_elem? j.shared.sinks j.last ≡ some cached
  pub cached_first : find_sink j.shared.sinks cached.endpoint.port ≡ some cached
  pub fresh : j.checkpoint < j.reload_checkpoint
  pub few : length j.shared.sinks ≤ 65536

find_sink_at-none :
    (i : ℕ) (es : Sinks) (port : ℕ) → find_sink es port ≡ none → find_sink_at i es port ≡ none
unfolding find_sink_at find_sink
find_sink_at-none i [] port h = refl
find_sink_at-none i (e ∷ es) port h = ground (arith, find_sink_at-none (suc i) es port)

find_sink_at-some :
    (i : ℕ) (es : Sinks) (port : ℕ) (e : SinkEntry)
    → find_sink es port ≡ some e
    → (k : ℕ) × (find_sink_at i es port ≡ some (i + k))
      × (get_elem? es k ≡ some e)
      × (e.endpoint.port ≡ port)
unfolding find_sink_at find_sink
find_sink_at-some i [] port e h = cc
find_sink_at-some i (d ∷ ds) port e h = elim (Bool-cases (d.endpoint.port == port)) [
  | inl hit ↦ (0, ground arith, ground arith, ground arith)
  | inr miss ↦
      let (k, a, g, p) = find_sink_at-some (suc i) ds port e (ground arith) in
      (suc k, ground arith, g, p)
]

find_sink_head :
    (es : Sinks) (e : SinkEntry) → get_elem? es 0 ≡ some e → find_sink es e.endpoint.port ≡ some e
unfolding find_sink
find_sink_head [] e h = cc
find_sink_head (d ∷ ds) e h = ground arith

get_elem?-some_lt : (es : Sinks) (k : ℕ) (e : SinkEntry) → get_elem? es k ≡ some e → k < length es
get_elem?-some_lt [] k e h = cc
get_elem?-some_lt (d ∷ ds) zero e h = omega arith
get_elem?-some_lt (d ∷ ds) (suc k) e h = omega (arith, get_elem?-some_lt ds k e h)

-- What a search answers: the port's channel, and a job that is stable again, with another index at
-- most.
pub record Found (port : ℕ) (j : RxJob) (r : Option (Option ℕ × RxJob)) : Type 0 where
  pub job : RxJob
  pub result : r ≡ some (channel_for j.shared.sinks port, job)
  pub kept : job ≡ record j { last = job.last }
  pub stable : Stable job

relocate-Found : (port : ℕ) (j : RxJob) → Stable j → Found port j (relocate port j)
unfolding relocate answer
relocate-Found port j s = elim (Option-cases (find_sink j.shared.sinks port)) [
  | inl missing ↦ record {
    job = record j { last = 0 };
    result =
        ground
          (arith, missing, find_sink_at-none 0 j.shared.sinks port, s.first_at, s.first_channel);
    kept = refl;
    stable = record {
      first = s.first;
      first_at = s.first_at;
      first_channel = s.first_channel;
      cached = s.first;
      cached_at = s.first_at;
      cached_first = find_sink_head j.shared.sinks s.first s.first_at;
      fresh = s.fresh;
      few = s.few;
    };
  }
  | inr (e, hit) ↦
      let (k, at, there, same_port) = find_sink_at-some 0 j.shared.sinks port e hit in
      let fits : k % 65536 ≡ k = omega (arith, get_elem?-some_lt j.shared.sinks k e there, s.few) in
      record {
        job = record j { last = k };
        result = ground (arith, hit, at, fits, there);
        kept = refl;
        stable = record {
          first = s.first;
          first_at = s.first_at;
          first_channel = s.first_channel;
          cached = e;
          cached_at = there;
          cached_first = ap (find_sink j.shared.sinks) same_port ∙ hit;
          fresh = s.fresh;
          few = s.few;
        };
      }
]

-- On a stable job, whose sinks are at most 65536, the lookup stays within the vector and answers with the channel of the first sink
-- that has the port, or with none if there is no such sink; and it leaves the job stable, with nothing
-- but the cached index changed.
pub find_rx_channel-Found :
    (device : Shared) (port : ℕ) (j : RxJob)
    → Stable j
    → Found port j (find_rx_channel device port j)
unfolding find_rx_channel consult
find_rx_channel-Found device port j s = elim (Bool-cases (s.cached.endpoint.port == port)) [
  | inr miss ↦ rw (s.cached_at, find_rx_channel) (rw (miss, consult) (relocate-Found port j s))
  | inl hit ↦ record {
    job = j;
    result = ground (arith, s.cached_at, s.cached_first, s.fresh, first_for ((==_iff _ _).0 hit));
    kept = refl;
    stable = s;
  }
]
  where
    first_for : s.cached.endpoint.port ≡ port → find_sink j.shared.sinks port ≡ some s.cached
    first_for e = ap (find_sink j.shared.sinks) (sym e) ∙ s.cached_first

-- After a reload the cached index is kept: if the newer vector is no longer than it, the next lookup
-- reads past the end.
find_rx_channel_stale :
    (device : Shared) (port : ℕ) (j : RxJob)
    → j.reload_checkpoint ≤ j.checkpoint
    → j.shared.address ≢ device.address
    → length device.sinks ≤ j.last
    → find_rx_channel device port (try_reload_sinks device j).1 ≡ none
unfolding find_rx_channel try_reload_sinks
find_rx_channel_stale device port j due newer short =
    ground (arith, get_elem?_past device.sinks j.last short)
