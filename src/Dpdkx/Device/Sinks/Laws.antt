-- ===== src/Dpdkx/Device/Sinks/Laws.antt =====
-- Who receives what, and which reports a multicast group sees.
use dpdk_tools.Common.{
  ℕ, zero, suc, ◌<◌, ◌≡◌, ◌≢◌, refl, ◌==◌, if◌then◌else◌, false, List, [], ◌∷◌, ◌++◌, Option, none,
  some, arith,
}
use dpdk_tools.Common.ByteOrder.{bswap}
use dpdk_tools.Dpdkx.Device.Sinks.{
  Endpoint, SinkEntry, Sinks, address_in_use, Outcome, ok, failed, Joined, put, join_mcast,
  leave_mcast, Receivers, Environment, rss, is_ipv4_mcast, attach_loop, find_sink, erase_sink,
  attach_rx, detach_rx,
}

abbrev pub prefer : Option SinkEntry → SinkEntry → Option SinkEntry
prefer none e = some e
prefer (some d) e = some d

find_sink-append :
    (sinks : Sinks) (e : SinkEntry) (port : ℕ)
    → find_sink (sinks ++ e ∷ []) port
      ≡ (if e.endpoint.port == port then prefer (find_sink sinks port) e else find_sink sinks port)
unfolding find_sink
find_sink-append [] e port = ground arith
find_sink-append (d ∷ ds) e port = ground (arith, find_sink-append ds e port)

erase_sink-append :
    (sinks : Sinks) (e : SinkEntry)
    → find_sink sinks e.endpoint.port ≡ none
    → erase_sink (sinks ++ e ∷ []) e.endpoint.port ≡ sinks
unfolding find_sink erase_sink
erase_sink-append [] e h = ground arith
erase_sink-append (d ∷ ds) e h = ground (arith, erase_sink-append ds e)

-- A channel attached without contention is appended, whatever is there: the call succeeds, a packet
-- for a port that had a receiver still goes to that one, and one for a port that had none goes to
-- the new channel. A second receiver on a port is no error, and gets nothing.
pub attach_loop-find_sink :
    (sinks : Sinks) (ep : Endpoint) (ch port : ℕ)
    → let (res, sinks') = attach_loop [] sinks ep (some ch) in
      (res ≡ ok)
      × (find_sink sinks' port ≡ (
          if ep.port == port
          then prefer (find_sink sinks port) (record { endpoint = ep; channel = some ch })
          else find_sink sinks port))
unfolding attach_loop
attach_loop-find_sink sinks ep ch port = (refl, find_sink-append sinks _ port)

-- When another thread publishes its sinks first, the call fails with `address_in_use`, whether or not
-- the address is in use, and leaves the sinks as that thread published them: the channel was moved
-- away in the first round.
pub attach_loop_contended :
    (published active : Sinks) (more : List Sinks) (ep : Endpoint) (ch : ℕ)
    → attach_loop (published ∷ more) active ep (some ch) ≡ (failed address_in_use, published)
unfolding attach_loop
attach_loop_contended published active [] ep ch = refl
attach_loop_contended published active (s ∷ more) ep ch = refl

-- Without contention, a channel that is attached to a port with no receiver and detached again leaves
-- the sinks as they were, and neither call fails where the address is no multicast group.
pub detach-attach :
    (env : Environment) (r : Receivers) (ep : Endpoint) (ch : ℕ)
    → env.contenders ≡ []
    → is_ipv4_mcast (bswap 4 ep.ip) ≡ false
    → find_sink r.sinks ep.port ≡ none
    → let (res, r') = attach_rx env ep (some ch) rss r in
      (res ≡ ok) × (detach_rx env ep (some ch) r' ≡ (ok, r))
unfolding attach_rx detach_rx
detach-attach env r ep ch alone unicast free = ground (
  arith,
  find_sink-append r.sinks (record { endpoint = ep; channel = some ch }) ep.port,
  erase_sink-append r.sinks (record { endpoint = ep; channel = some ch }),
)

-- `k` receivers join a group, one after the other.
pub joins : ℕ → Outcome → Joined → ℕ → Joined
joins zero send joined ip = joined
joins (suc k) send joined ip = (join_mcast send (joins k send joined ip) ip).1

joins-count :
    (k : ℕ) (send : Outcome) (joined : Joined) (ip : ℕ)
    → joined ip ≡ none
    → suc k < 256
    → joins (suc k) send joined ip ip ≡ some (suc k)
unfolding joins join_mcast put
joins-count zero send joined ip new h = ground arith
joins-count (suc k) send joined ip new h = ground (arith, joins-count k send joined ip new)

joins_apart :
    (k : ℕ) (send : Outcome) (joined : Joined) (ip other : ℕ)
    → other ≢ ip
    → joins k send joined ip other ≡ joined other
unfolding joins join_mcast put
joins_apart zero send joined ip other h = refl
joins_apart (suc k) send joined ip other h = ground (arith, joins_apart k send joined ip other h)

-- Of the receivers that join a new group, fewer than 256, all but the first get `address_in_use`
-- though they are counted. When one of them leaves, the report that the group is left is sent at
-- once, also while others are still counted; the count goes down by one, and the group is forgotten
-- with the last. Another group is not touched.
leave-joins :
    (k : ℕ) (send : Outcome) (joined : Joined) (ip other : ℕ)
    → joined ip ≡ none
    → suc k < 256
    → other ≢ ip
    → let joined' = joins (suc k) send joined ip in
      let (left, rest) = leave_mcast send joined' ip in
      ((join_mcast send joined' ip).0 ≡ failed address_in_use)
      × (left ≡ send)
      × (rest ip ≡ (if k == 0 then none else some k))
      × (rest other ≡ joined other)
unfolding leave_mcast join_mcast put
leave-joins k send joined ip other new h apart = (
  ground (arith, joins-count k send joined ip new),
  ground (arith, joins-count k send joined ip new),
  ground (arith, joins-count k send joined ip new),
  ground (arith, joins-count k send joined ip new, joins_apart (suc k) send joined ip other apart),
)
