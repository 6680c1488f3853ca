-- ===== src/Dpdkx/Device/Service/Resolve.antt =====
-- Two devices on one wire: what an ARP request brings about.
use dpdk_tools.Common.{
  ℕ, ◌+◌, ◌^◌, ◌<◌, ◌≡◌, refl, ◌∙◌, ap, ◌==◌, Bool, true, false, [], ◌∷◌, Option, none, some, arith,
  bit_and,
}
use dpdk_tools.Common.Memory.{Memory, load}
use dpdk_tools.Common.ByteOrder.{bswap}
use dpdk_tools.Common.Writes.{
  Writes, write_all, seen, value, untouched, load-write_all, load-write_all_untouched,
}
use dpdk_tools.Dpdkx.Proto.{
  be16, ether_type_arp, ether_type_ipv4, arp_hrd_ether, arp_op_request, arp_op_reply,
}
use dpdk_tools.Dpdkx.Mbuf.{Mbuf}
use dpdk_tools.Dpdkx.Mbuf.L2.{eth_proto}
use dpdk_tools.Dpdkx.Device.Host.{Host, Neighbours, insert_or_assign, try_emplace}
use dpdk_tools.Dpdkx.Device.Sinks.{ok, failed, resource_unavailable_try_again}
use dpdk_tools.Dpdkx.Device.Address.{arp_request, Lookup, ether_address}
use dpdk_tools.Dpdkx.Device.Service.{Served, learn, arp_reply, serve_arp, serve}

-- An ARP packet for Ethernet and IPv4, whole, behind a header without tags.
record IsArp (p : Mbuf) (op sender_mac sender_ip target_ip : ℕ) : Type 0 where
  l2 : p.l2_len ≡ 14
  long : p.data_len ≡ 42
  proto : load 2 12 p.bytes ≡ be16 ether_type_arp
  hardware : load 2 14 p.bytes ≡ be16 arp_hrd_ether
  protocol : load 2 16 p.bytes ≡ be16 ether_type_ipv4
  opcode : load 2 20 p.bytes ≡ be16 op
  sha : load 6 22 p.bytes ≡ sender_mac
  sip : load 4 28 p.bytes ≡ sender_ip
  tip : load 4 38 p.bytes ≡ target_ip

pub record IsBounded (h : Host) : Type 0 where
  pub mac : h.mac_addr < 256 ^ 6
  pub ip : h.ip4addr < 256 ^ 4

arp_request-IsArp :
    (a : Host) (ip : ℕ) (buffer : Mbuf)
    → IsBounded a
    → ip < 256 ^ 4
    → IsArp (arp_request a ip buffer) arp_op_request a.mac_addr a.ip4addr ip
unfolding arp_request write_all be16 bswap
arp_request-IsArp a ip buffer v h = record {
  l2 = refl;
  long = refl;
  proto = field 2 12 (be16 ether_type_arp) refl (omega arith);
  hardware = field 2 14 (be16 arp_hrd_ether) refl (omega arith);
  protocol = field 2 16 (be16 ether_type_ipv4) refl (omega arith);
  opcode = field 2 20 (be16 arp_op_request) refl (omega arith);
  sha = field 6 22 a.mac_addr refl v.mac;
  sip = field 4 28 a.ip4addr refl v.ip;
  tip = field 4 38 ip refl h;
}
  where
    fields : Writes
    fields =
        (2, 12, be16 ether_type_arp)
        ∷ (6, 6, a.mac_addr)
        ∷ (6, 0, 0xffffffffffff)
        ∷ (2, 14, be16 arp_hrd_ether)
        ∷ (2, 16, be16 ether_type_ipv4)
        ∷ (1, 18, 6)
        ∷ (1, 19, 4)
        ∷ (2, 20, be16 arp_op_request)
        ∷ (6, 22, a.mac_addr)
        ∷ (4, 28, a.ip4addr)
        ∷ (6, 32, 0)
        ∷ (4, 38, ip)
        ∷ []

    field :
        (w off v : ℕ)
        → seen w off untouched fields ≡ value v
        → v < 256 ^ w
        → load w off (arp_request a ip buffer).bytes ≡ v
    field w off v e lt = load-write_all w off v fields buffer.bytes e lt

-- The answer keeps what the frame says of itself, and names the answering device as the sender.
arp_reply-IsArp :
    (b : Host) (p : Mbuf) (mac ip target : ℕ)
    → IsBounded b
    → ip < 256 ^ 4
    → IsArp p arp_op_request mac ip target
    → IsArp (arp_reply b p) arp_op_reply b.mac_addr b.ip4addr ip
unfolding arp_reply be16 bswap
arp_reply-IsArp b p mac ip target v h a = record {
  l2 = a.l2;
  long = a.long;
  proto = kept 2 12 refl ∙ a.proto;
  hardware = kept 2 14 refl ∙ a.hardware;
  protocol = kept 2 16 refl ∙ a.protocol;
  opcode = field 2 20 (be16 arp_op_reply) refl (omega arith);
  sha = field 6 22 b.mac_addr refl v.mac;
  sip = field 4 28 b.ip4addr refl v.ip;
  tip =
      ap (load 4 38) (bytes_at p.l2_len a.l2)
      ∙ load-write_all 4 38 (load 4 28 p.bytes) fields p.bytes refl (rw a.sip h)
      ∙ a.sip;
}
  where
    fields_at : ℕ → Writes
    fields_at at =
        (2, at + 6, be16 arp_op_reply)
        ∷ (6, 0, load 6 6 p.bytes)
        ∷ (6, 6, b.mac_addr)
        ∷ (6, at + 18, load 6 (at + 8) p.bytes)
        ∷ (4, at + 24, load 4 (at + 14) p.bytes)
        ∷ (4, at + 14, b.ip4addr)
        ∷ (6, at + 8, b.mac_addr)
        ∷ []

    fields : Writes
    fields = fields_at 14

    bytes_at : (at : ℕ) → at ≡ 14 → write_all (fields_at at) p.bytes ≡ write_all fields p.bytes
    bytes_at at e = ap (λ k. write_all (fields_at k) p.bytes) e

    field :
        (w off u : ℕ)
        → seen w off untouched fields ≡ value u
        → u < 256 ^ w
        → load w off (arp_reply b p).bytes ≡ u
    field w off u e lt =
        ap (load w off) (bytes_at p.l2_len a.l2) ∙ load-write_all w off u fields p.bytes e lt

    kept :
        (w off : ℕ)
        → seen w off untouched fields ≡ untouched
        → load w off (arp_reply b p).bytes ≡ load w off p.bytes
    kept w off e =
        ap (load w off) (bytes_at p.l2_len a.l2) ∙ load-write_all_untouched w off fields p.bytes e

-- A request for the device's own address is answered, and its sender is learnt.
serve_arp-request :
    (b : Host) (now : ℕ) (p : Mbuf) (table : Neighbours) (mac ip : ℕ)
    → IsArp p arp_op_request mac ip b.ip4addr
    → serve_arp b now p table
      ≡ record { packet = arp_reply b p; table = learn b now p table; reply = true }
unfolding serve_arp
serve_arp-request b now p table mac ip a =
    ground (arith, a.l2, a.long, a.hardware, a.protocol, a.opcode, a.tip)

-- An answer is learnt and kept.
serve_arp-reply :
    (h : Host) (now : ℕ) (p : Mbuf) (table : Neighbours) (mac ip target : ℕ)
    → IsArp p arp_op_reply mac ip target
    → serve_arp h now p table ≡ record { packet = p; table = learn h now p table; reply = false }
unfolding serve_arp be16 bswap
serve_arp-reply h now p table mac ip target a =
    ground (arith, a.l2, a.long, a.hardware, a.protocol, a.opcode)

learn_lem :
    (h : Host) (now op mac ip target : ℕ) (p : Mbuf) (table : Neighbours)
    → h.arp_table ≡ true
    → IsArp p op mac ip target
    → learn h now p table ip ≡ some (record { mac_addr = mac; timestamp = now })
unfolding learn insert_or_assign
learn_lem h now op mac ip target p table on a = ground (arith, a.l2, a.sha, a.sip)

-- The three states of an address that is not the device's own.
module _ (h : Host) (ip : ℕ) (plain : (bit_and ip 0x7f == 0x7f) ≡ false) where
  ether_address-unknown :
      (buffer : Mbuf) (table : Neighbours)
      → h.arp_table ≡ true
      → table ip ≡ none
      → ether_address h (λ p. true) (some buffer) table ip ≡ record {
        result = failed resource_unavailable_try_again;
        mac_addr = none;
        table = insert_or_assign table ip (record { mac_addr = 0; timestamp = 0 });
        request = some (arp_request h ip buffer);
      }
  unfolding ether_address try_emplace
  ether_address-unknown buffer table on e = ground (arith, plain)

  ether_address-pending :
      (enque : Mbuf → Bool) (buffer : Option Mbuf) (table : Neighbours) (mac : ℕ)
      → table ip ≡ some (record { mac_addr = mac; timestamp = 0 })
      → ether_address h enque buffer table ip ≡ record {
        result = failed resource_unavailable_try_again;
        mac_addr = none;
        table = table;
        request = none;
      }
  unfolding ether_address
  ether_address-pending enque buffer table mac e = ground (arith, plain)

  ether_address-known :
      (enque : Mbuf → Bool) (buffer : Option Mbuf) (table : Neighbours) (mac timestamp : ℕ)
      → 0 < timestamp
      → table ip ≡ some (record { mac_addr = mac; timestamp = timestamp })
      → ether_address h enque buffer table ip
        ≡ record { result = ok; mac_addr = some mac; table = table; request = none }
  unfolding ether_address
  ether_address-known enque buffer table mac timestamp past e = ground (arith, plain)

module _ (cksum : ℕ → Memory → ℕ) where
  serve-IsArp :
      (h : Host) (now op mac ip target : ℕ) (p : Mbuf) (table : Neighbours)
      → IsArp p op mac ip target
      → serve cksum h now p table ≡ serve_arp h now p table
  unfolding serve eth_proto be16 bswap
  serve-IsArp h now op mac ip target p table a = ground (arith, a.l2, a.proto)

  -- A device that does not know a neighbour asks for it, and while there is no answer says so and
  -- does not ask again. The neighbour, whose address is not one that `ether_address` takes for its
  -- own, answers the request. Once the answer is served, at a time other than 0, the address is known:
  -- it is the neighbour's.
  pub ether_address_resolved :
      (a b : Host) (buffer : Mbuf) (again : Option Mbuf) (now now' : ℕ) (ta tb : Neighbours)
      → IsBounded a
      → IsBounded b
      → a.arp_table ≡ true
      → ta b.ip4addr ≡ none
      → (bit_and b.ip4addr 0x7f == 0x7f) ≡ false
      → 0 < now'
      → let asked = ether_address a (λ p. true) (some buffer) ta b.ip4addr in
        let waiting = ether_address a (λ p. true) again asked.table b.ip4addr in
        let answer = serve cksum b now (arp_request a b.ip4addr buffer) tb in
        let heard = serve cksum a now' answer.packet waiting.table in
        let found = ether_address a (λ p. true) none heard.table b.ip4addr in
        (asked.request ≡ some (arp_request a b.ip4addr buffer))
        × (waiting.result ≡ failed resource_unavailable_try_again)
        × (waiting.request ≡ none)
        × (answer.reply ≡ true)
        × (found.result ≡ ok)
        × (found.mac_addr ≡ some b.mac_addr)
  unfolding insert_or_assign
  ether_address_resolved a b buffer again now now' ta tb va vb on unknown plain past =
      let p = arp_request a b.ip4addr buffer in
      let q = arp_reply b p in
      let request = arp_request-IsArp a b.ip4addr buffer va vb.ip in
      let reply = arp_reply-IsArp b p a.mac_addr a.ip4addr b.ip4addr vb va.ip request in
      let served =
        serve-IsArp b now arp_op_request a.mac_addr a.ip4addr b.ip4addr p tb request
        ∙ serve_arp-request b now p tb a.mac_addr a.ip4addr request in
      let asked = ether_address-unknown a b.ip4addr plain buffer ta on unknown in
      let table = insert_or_assign ta b.ip4addr (record { mac_addr = 0; timestamp = 0 }) in
      let waiting =
        ap (λ (l : Lookup). ether_address a (λ p. true) again l.table b.ip4addr) asked
        ∙ ether_address-pending a b.ip4addr plain (λ p. true) again table 0 (ground arith) in
      let before = ether_address a (λ p. true) (some buffer) ta b.ip4addr in
      let later = ether_address a (λ p. true) again before.table b.ip4addr in
      let heard =
        ap (λ (s : Served). serve cksum a now' s.packet later.table) served
        ∙ serve-IsArp a now' arp_op_reply b.mac_addr b.ip4addr a.ip4addr q later.table reply
        ∙ serve_arp-reply a now' q later.table b.mac_addr b.ip4addr a.ip4addr reply in
      let found =
        ether_address-known a b.ip4addr plain (λ p. true) none
          (serve cksum a now' (serve cksum b now p tb).packet later.table).table b.mac_addr now'
          past
          (ap (λ (s : Served). s.table b.ip4addr) heard
            ∙ learn_lem a now' arp_op_reply b.mac_addr b.ip4addr a.ip4addr q later.table on
                reply) in
      (
        ap (λ (l : Lookup). l.request) asked,
        ap (λ (l : Lookup). l.result) waiting,
        ap (λ (l : Lookup). l.request) waiting,
        ap (λ (s : Served). s.reply) served,
        ap (λ (l : Lookup). l.result) found,
        ap (λ (l : Lookup). l.mac_addr) found,
      )
