-- ===== src/Examples/Services.antt =====
-- The theorems on what devices answer, report and send at concrete inputs.
use dpdk_tools.Common.{
  ℕ, suc, ◌+◌, ◌%◌, ◌≡◌, inl, refl, ◌==◌, if◌then◌else◌, true, false, List, [], ◌∷◌, some, none,
  arith,
}
use dpdk_tools.Common.Memory.{Memory, load}
use dpdk_tools.Dpdkx.Mbuf.{Mbuf}
use dpdk_tools.Dpdkx.Jobs.{JobState, idling}
use dpdk_tools.Dpdkx.Jobs.Address.{ask_again, Asked, ask_again_total}
use dpdk_tools.Dpdkx.Device.RxJob.{l3size}
use dpdk_tools.Dpdkx.Device.Sinks.{Outcome, ok, failed, resource_unavailable_try_again}
use dpdk_tools.Dpdkx.Device.Host.{Host, Neighbours}
use dpdk_tools.Dpdkx.Device.Address.{ether_address, arp_request}
use dpdk_tools.Dpdkx.Device.Service.{serve, echo_reply}
use dpdk_tools.Dpdkx.Device.Service.Resolve.{IsBounded, ether_address_resolved}
use dpdk_tools.Dpdkx.Device.Service.Echo.{words, echo_reply-words}
use dpdk_tools.Dpdkx.Device.Mcast.{mcast_group}
use dpdk_tools.Dpdkx.Device.Mcast.Report.{Answered, mcast_group-Answered}
use dpdk_tools.Dpdkx.Device.Make.{Proposal, DeviceConfig, Driver, make_device}
use dpdk_tools.Dpdkx.Device.Make.Laws.{Constructed, make_device-Constructed}
use dpdk_tools.Dpdkx.UdpTx.{UdpTxChannel, Sender, Destination, Sent, send}
use dpdk_tools.Dpdkx.UdpTx.Laws.{Carried, send-Carried}
use dpdk_tools.Dpdkx.Config.Sockets.{group_cores}
use dpdk_tools.Dpdkx.Config.Sockets.Groups.{
  Group, configs, all_cores, group_of, filter, group_cores-groups,
}

abbrev host_a : Host
host_a = record {
  mac_addr = 0x020202020202;
  ip4addr = 0x0100000a;
  icmp = true;
  arp_table = true;
  ipv4_cksum_offload = false;
}

abbrev host_b : Host
host_b = record {
  mac_addr = 0x040404040404;
  ip4addr = 0x0200000a;
  icmp = true;
  arp_table = true;
  ipv4_cksum_offload = true;
}

host_a-IsBounded : IsBounded host_a
host_a-IsBounded = record { mac = omega arith; ip = omega arith }

host_b-IsBounded : IsBounded host_b
host_b-IsBounded = record { mac = omega arith; ip = omega arith }

abbrev empty_table : Neighbours
empty_table ip = none

abbrev no_cksum : ℕ → Memory → ℕ
no_cksum at m = 0

abbrev empty_buffer : Mbuf
empty_buffer = record {
  bytes = λ i. 0;
  data_len = 0;
  pkt_len = 0;
  l2_len = 14;
  l3_len = 0;
  l4_len = 0;
  ol_flags = 0;
  nb_segs = 1;
}

ether_address_resolved_example :
    let asked = ether_address host_a (λ p. true) (some empty_buffer) empty_table host_b.ip4addr in
    let waiting = ether_address host_a (λ p. true) none asked.table host_b.ip4addr in
    let answer =
      serve no_cksum host_b 7 (arp_request host_a host_b.ip4addr empty_buffer) empty_table in
    let heard = serve no_cksum host_a 8 answer.packet waiting.table in
    let found = ether_address host_a (λ p. true) none heard.table host_b.ip4addr in
    (asked.request ≡ some (arp_request host_a host_b.ip4addr empty_buffer))
    × (waiting.result ≡ failed resource_unavailable_try_again)
    × (waiting.request ≡ none)
    × (answer.reply ≡ true)
    × (found.result ≡ ok)
    × (found.mac_addr ≡ some host_b.mac_addr)
ether_address_resolved_example =
    ether_address_resolved no_cksum host_a host_b empty_buffer none 7 8 empty_table empty_table
      host_a-IsBounded host_b-IsBounded refl refl refl (omega arith)

-- An echo request: a header of five words, then type 8, code 0, its checksum and an identifier.
abbrev echo_bytes : Memory
echo_bytes i =
    if i == 14
    then 0x45
    else if i == 34
    then 8
    else if i == 36
    then 0xf6
    else if i == 37
    then 0xff
    else if i == 38
    then 1
    else 0

abbrev echo_request : Mbuf
echo_request = record empty_buffer { bytes = echo_bytes; data_len = 42; pkt_len = 42 }

echo_reply-words_example :
    let at = 14 + l3size echo_request in
    let r = (echo_reply no_cksum host_a echo_request).bytes in
    (words (suc (suc 2)) at r % 65535 ≡ words (suc (suc 2)) at echo_bytes % 65535)
    × (words 2 (at + 2 + 2) r ≡ words 2 (at + 2 + 2) echo_bytes)
unfolding l3size load
echo_reply-words_example =
    echo_reply-words no_cksum host_a 2 echo_request (omega arith) (omega arith) refl refl
      (omega arith)

-- Each call of the job counts; the address is known after three, and the time is up after one.
abbrev tick_job : ℕ → ℕ → JobState × ℕ
tick_job j w = (idling, suc w)

abbrev resolve_at_3 : ℕ → Outcome × ℕ
resolve_at_3 w = (if w == 3 then ok else failed resource_unavailable_try_again, w)

ask_again_total_example :
    (r : Outcome × List ℕ × ℕ) × (ask_again tick_job resolve_at_3
        (λ w. true)
        (λ w. false)
        1
        (0 ∷ [])
        0
      ≡ some r)
    × Asked tick_job resolve_at_3 (λ w. true) (λ w. false) (0 ∷ []) 0 r.0
ask_again_total_example =
    ask_again_total tick_job resolve_at_3 (λ w. true) (λ w. false) (λ w. 0) (λ jobs w. inl refl) 1
      (0 ∷ []) 0 (omega arith)

mcast_group-Answered_example :
    Answered
      (λ at n m. 0)
      no_cksum
      host_a
      (λ p. true)
      0x030201e0
      4
      (some empty_buffer)
      (mcast_group (λ at n m. 0) no_cksum host_a (λ p. true) (some empty_buffer) 0x030201e0 4)
mcast_group-Answered_example =
    mcast_group-Answered (λ at n m. 0) no_cksum host_a (λ p. true) (some empty_buffer) 0x030201e0 4
      (omega arith) (omega arith) (omega arith)

abbrev proposal : Proposal
proposal = record { nb_queues = 4; burst_size = 0; ring_size = 0 }

abbrev device_config : DeviceConfig
device_config = record {
  rx = proposal;
  tx = proposal;
  rx_flow_queues = 1;
  svc_tx_n = 65535;
  tx_rings = 2;
  clock_hz = 0;
  dev_clock = true;
  rx_offloads = 2;
  tx_offloads = 0;
}

abbrev driver : Driver
driver = record {
  svc_mempool = true;
  tx_ring = λ q. true;
  clock = (1000000000, false);
  timestamp_register = none;
  configure = λ rx tx offloads rss. true;
  adjust = λ rx tx. some (rx, tx);
  mempool = λ n. true;
  rx_queue_setup = λ q ring offloads. true;
  tx_queue_setup = λ q ring offloads. true;
}

make_device-Constructed_example :
    Constructed driver device_config (make_device driver device_config)
make_device-Constructed_example = make_device-Constructed driver device_config

abbrev channel : UdpTxChannel
channel = record { src_port = 513; packet_buf_size = 64; packet_id = 0 }

abbrev sender : Sender
sender = record { mac_addr = 1; ip4addr = 2; ipv4_cksum_offload = false; udp_cksum_offload = false }

abbrev destination : Destination
destination = record { mac = 3; ip = 4; port = 5 }

-- 150 bytes take three buffers of 64.
send-Carried_example :
    (r : Sent) × (send no_cksum
        (λ at m flags. 0)
        (λ h ss at. 0)
        (some empty_buffer)
        (λ i. some empty_buffer)
        (λ h ss. true)
        151
        channel
        sender
        destination
        150
        (λ i. i)
      ≡ some r)
    × Carried no_cksum
        (λ at m flags. 0)
        (λ h ss at. 0)
        (some empty_buffer)
        (λ i. some empty_buffer)
        (λ h ss. true)
        64
        150
        (λ i. i)
        r
send-Carried_example =
    send-Carried no_cksum (λ at m flags. 0) (λ h ss at. 0) (some empty_buffer)
      (λ i. some empty_buffer) (λ h ss. true) 151 channel sender destination 150 (λ i. i)
      (omega arith) (omega arith) (omega arith)

abbrev even_socket : ℕ → ℕ
even_socket c = c % 2

group_cores-groups_example :
    (gs : List Group) × (group_cores even_socket (0 ∷ 1 ∷ 2 ∷ 3 ∷ []) ([], [])
      ≡ (configs gs, all_cores gs))
    × ((sid : ℕ) → group_of sid gs ≡ filter (λ c. even_socket c == sid) (0 ∷ 1 ∷ 2 ∷ 3 ∷ []))
group_cores-groups_example = group_cores-groups even_socket (0 ∷ 1 ∷ 2 ∷ 3 ∷ [])
