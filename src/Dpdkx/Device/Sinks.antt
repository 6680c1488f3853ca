-- ===== src/Dpdkx/Device/Sinks.antt =====
-- The receivers of a device: `attach_rx`, `detach_rx`, `join_mcast`, `leave_mcast`, and the queues
-- with flow rules of their own (dpdkx/flow/rx_queue.cpp).
pub mod Laws
pub mod Stub
use mathlib.Core.Option
use dpdk_tools.Common.{
  ℕ, ◌+◌, ◌-◌, ◌%◌, ◌/◌, ltb, leb, ◌==◌, if◌then◌else◌, Bool, true, false, ◌&&◌, List, [], ◌∷◌,
  ◌++◌, Option, none, some,
}
use dpdk_tools.Common.ByteOrder.{bswap}

-- A `rte_be32_t` and a `rte_be16_t`, as the host loads them; a channel is a `shared_ptr`'s address.
pub record Endpoint : Type 0 where
  pub ip : ℕ
  pub port : ℕ

pub record SinkEntry : Type 0 where
  pub endpoint : Endpoint
  pub channel : Option ℕ

abbrev pub Sinks : Type 0
Sinks = List SinkEntry

-- The error codes that the routines name.
pub data Errc : Type 0 where
  address_in_use bad_address invalid_argument no_available_queue no_buffer_space : Errc
  not_supported resource_unavailable_try_again flow_error connection_aborted : Errc
  operation_canceled timed_out : Errc

-- `{}`, an error code, or an exception that leaves the routine.
pub data Outcome : Type 0 where
  ok : Outcome
  failed : Errc → Outcome
  thrown : Errc → Outcome

-- RTE_IS_IPV4_MCAST, of an address in host order: 224.0.0.0 to 239.255.255.255.
unfoldable pub is_ipv4_mcast : ℕ → Bool
is_ipv4_mcast ip = leb 0xe0000000 ip && leb ip 0xefffffff

-- `joined_mcasts_`: how often each group is joined, in a `std::uint8_t`; `none` where it is not a key.
abbrev pub Joined : Type 0
Joined = ℕ → Option ℕ

unfoldable pub put : Joined → ℕ → Option ℕ → Joined
put joined ip count other = if other == ip then count else joined other

-- `send` is what `join_mcast_group` returns once the report is made.
unfoldable pub join_mcast : Outcome → Joined → ℕ → Outcome × Joined
join_mcast send joined ip = elim (joined ip) [
  | none ↦ (send, put joined ip (some 1))
  | some n ↦ (failed address_in_use, put joined ip (some ((n + 1) % 256)))
]

unfoldable pub leave_mcast : Outcome → Joined → ℕ → Outcome × Joined
leave_mcast send joined ip = elim (joined ip) [
  | none ↦ (failed bad_address, joined)
  | some n ↦ let n' = (n + 255) % 256 in (send, put joined ip (if n' == 0 then none else some n'))
]

-- A `flow::rx_queue`: its channel and the endpoints that its flow rules route to it.
pub record RxQueue : Type 0 where
  pub channel : Option ℕ
  pub routes : List Endpoint

pub data AttachMode : Type 0 where
  any rss flow : AttachMode

pub record Receivers : Type 0 where
  pub sinks : Sinks
  pub fqueues : List RxQueue
  pub joined : Joined

-- What the environment answers: whether a flow rule for an endpoint can be made, whether it can be
-- destroyed (at the first and at the second attempt), what the multicast report returns, and what
-- other threads publish in `sinks_` before each exchange of this one that fails.
pub record Environment : Type 0 where
  pub make_flow : Endpoint → Bool
  pub destroy : ℕ → Endpoint → Bool
  pub send : Outcome
  pub contenders : List Sinks

-- `route_to`
unfoldable pub route_to : Environment → RxQueue → Endpoint → Outcome × RxQueue
route_to env q ep =
    if env.make_flow ep
    then (ok, record q { routes = q.routes ++ ep ∷ [] })
    else (failed flow_error, q)

-- `reset()`: what cannot be destroyed stays.
unfoldable pub remove_flows : Environment → List Endpoint → List Endpoint
remove_flows env [] = []
remove_flows env (f ∷ fs) =
    let rest = remove_flows env fs in if env.destroy 0 f then rest else f ∷ rest

-- The loop of `reset(ch, ep)`, from the back, and whether it came to the front.
unfoldable pub retry_flows : Environment → List Endpoint → List Endpoint × Bool
retry_flows env [] = ([], true)
retry_flows env (f ∷ fs) =
    let (rest, all) = retry_flows env fs in
    if all then (if env.destroy 1 f then ([], true) else (f ∷ [], false)) else (f ∷ rest, false)

-- `reset(ch, ep)`
unfoldable pub reset : Environment → RxQueue → Option ℕ → Endpoint → Outcome × RxQueue
unfolding remove_flows retry_flows
reset env q ch ep =
    let (left, all) = retry_flows env (remove_flows env q.routes) in
    if all
    then (if env.make_flow ep
        then (ok, record { channel = ch; routes = ep ∷ [] })
        else (thrown flow_error, record { channel = ch; routes = [] }))
    else (thrown flow_error, record q { routes = left })

-- The `do … while (!updated)` loop of `attach_rx`. The channel is moved into the copy of the first
-- round, so that a later round has none; `emplace_back` answers with the new entry, whose `second`
-- is the channel.
unfoldable pub attach_loop : List Sinks → Sinks → Endpoint → Option ℕ → Outcome × Sinks
attach_loop contenders active ep none = (failed address_in_use, active)
attach_loop [] active ep (some ch) =
    (ok, active ++ record { endpoint = ep; channel = some ch } ∷ [])
attach_loop (published ∷ more) active ep (some ch) = attach_loop more published ep none

-- `find_sink`
unfoldable pub find_sink : Sinks → ℕ → Option SinkEntry
find_sink [] port = none
find_sink (e ∷ es) port = if e.endpoint.port == port then some e else find_sink es port

unfoldable pub erase_sink : Sinks → ℕ → Sinks
erase_sink [] port = []
erase_sink (e ∷ es) port = if e.endpoint.port == port then es else e ∷ erase_sink es port

-- A group's report after an endpoint was attached or detached.
unfoldable pub join_if_mcast : Environment → Endpoint → Receivers → Outcome × Receivers
unfolding is_ipv4_mcast
join_if_mcast env ep r =
    if is_ipv4_mcast (bswap 4 ep.ip)
    then (let (res, joined) = join_mcast env.send r.joined ep.ip in
        (res, record r { joined = joined }))
    else (ok, r)

unfoldable pub leave_if_mcast : Environment → Endpoint → Receivers → Outcome × Receivers
unfolding is_ipv4_mcast
leave_if_mcast env ep r =
    if is_ipv4_mcast (bswap 4 ep.ip)
    then (let (res, joined) = leave_mcast env.send r.joined ep.ip in
        (res, record r { joined = joined }))
    else (ok, r)

abbrev pub same : Option ℕ → Option ℕ → Bool
same none none = true
same (some a) (some b) = a == b
same _ _ = false

-- The first queue with the channel, and what stands before and behind it.
unfoldable pub find_queue :
    (Option ℕ) → List RxQueue → Option (List RxQueue × RxQueue × List RxQueue)
find_queue ch [] = none
find_queue ch (q ∷ qs) =
    if same ch q.channel
    then some ([], q, qs)
    else Option.map (λ (before, found, behind). (q ∷ before, found, behind)) (find_queue ch qs)

-- Whether a step went well, and then the group's report.
unfoldable pub and_join : Environment → Endpoint → Outcome → Receivers → Outcome × Receivers
unfolding join_if_mcast
and_join env ep ok r = join_if_mcast env ep r
and_join env ep res r = (res, r)

unfoldable pub attach_sink : Environment → Endpoint → Option ℕ → Receivers → Outcome × Receivers
unfolding and_join attach_loop
attach_sink env ep ch r =
    let (res, sinks) = attach_loop env.contenders r.sinks ep ch in
    and_join env ep res (record r { sinks = sinks })

unfoldable pub attach_free :
    Environment → Endpoint → Option ℕ → AttachMode → Receivers → Outcome × Receivers
unfolding and_join reset find_queue attach_sink
attach_free env ep ch mode r = elim (find_queue none r.fqueues) [
  | some (before, q, behind) ↦
      and_join env ep (reset env q ch ep).0
        (record r { fqueues = before ++ ((reset env q ch ep).1 ∷ behind) })
  | none ↦ elim mode [ flow ↦ (failed no_available_queue, r) | _ ↦ attach_sink env ep ch r ]
]

unfoldable pub attach_rx :
    Environment → Endpoint → Option ℕ → AttachMode → Receivers → Outcome × Receivers
unfolding and_join route_to find_queue attach_free attach_sink
attach_rx env ep ch rss r = attach_sink env ep ch r
attach_rx env ep ch mode r = elim (find_queue ch r.fqueues) [
  | some (before, q, behind) ↦
      and_join env ep (route_to env q ep).0
        (record r { fqueues = before ++ ((route_to env q ep).1 ∷ behind) })
  | none ↦ attach_free env ep ch mode r
]

-- The loop of `detach_rx`: whether the group is to be left, the result otherwise, and the sinks. The
-- vector that others read is changed in place.
unfoldable pub detach_loop :
    List Sinks → Bool → Sinks → Endpoint → Option ℕ → Bool × Outcome × Sinks
unfolding find_sink erase_sink
detach_loop [] first active ep ch = elim (find_sink active ep.port) [
  | none ↦ (false, if first then failed invalid_argument else ok, active)
  | some e ↦
      if same e.channel ch
      then (true, ok, erase_sink active ep.port)
      else (false, if first then failed invalid_argument else ok, active)
]
detach_loop (published ∷ more) first active ep ch =
    let rest = detach_loop more false published ep ch in
    elim (find_sink active ep.port) [
      | none ↦ (false, if first then failed invalid_argument else ok, active)
      | some e ↦
          if same e.channel ch
          then rest
          else (false, if first then failed invalid_argument else ok, active)
    ]

unfoldable pub detach_rx : Environment → Endpoint → Option ℕ → Receivers → Outcome × Receivers
unfolding detach_loop leave_if_mcast
detach_rx env ep ch r =
    let (leave, res, sinks) = detach_loop env.contenders true r.sinks ep ch in
    if leave
    then leave_if_mcast env ep (record r { sinks = sinks })
    else (res, record r { sinks = sinks })
