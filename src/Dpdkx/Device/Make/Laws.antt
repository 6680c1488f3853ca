-- ===== src/Dpdkx/Device/Make/Laws.antt =====
-- What the constructor of the device ends with, by the calls that succeed.
use dpdk_tools.Common.{
  ℕ, ◌-◌, ◌≤◌, ◌≡◌, refl, if◌then◌else◌, Bool, true, false, Bool-cases, inl, inr, arith, length,
  Option, none, some,
}
use dpdk_tools.Dpdkx.Device.Make.{
  DeviceConfig, Device, Made, no_tx_ring, with_tx_rings, no_svc_mempool, not_configured,
  not_adjusted, no_mempool, no_rx_queue, no_tx_queue, made, Driver, iota, default_to, settle_queues,
  lay_out, first_failing, with_rings, finish, set_up_tx, set_up_rx, adjusted, make_device,
  nb_mbuf_per_pool, default_ring_size,
}
use dpdk_tools.Dpdkx.Device.Make.Queues.{
  FirstFailing, AllSetUp, first_failing-some, first_failing-none,
}
use dpdk_tools.Dpdkx.Device.Make.Layout.{IsLaidOut, lay_out-IsLaidOut}

-- The arguments of the calls are those that `lay_out` has settled; `r` and `t` are the sizes of the
-- rings that the driver adjusts them to.
module _ (drv : Driver) (c : DeviceConfig) where
  abbrev laid : Device
  laid = lay_out drv c

  abbrev pub Ringed : Type 0
  Ringed =
      (drv.svc_mempool ≡ true)
      × AllSetUp drv.tx_ring (c.tx.nb_queues - laid.tx_queues) laid.tx_queues

  abbrev pub configure : Bool
  configure = drv.configure c.rx.nb_queues c.tx.nb_queues laid.port_rx_offloads laid.rss

  abbrev pub adjust : Option (ℕ × ℕ)
  adjust =
      drv.adjust (default_to default_ring_size c.rx.ring_size)
        (default_to default_ring_size c.tx.ring_size)

  abbrev pub Adjusted : ℕ → ℕ → Type 0
  Adjusted r t = Ringed × (configure ≡ true) × (adjust ≡ some (r, t))

  abbrev pub Buffered : ℕ → ℕ → Type 0
  Buffered r t = Adjusted r t × (drv.mempool (nb_mbuf_per_pool c.rx.nb_queues) ≡ true)

  abbrev pub rx_setup : ℕ → ℕ → Bool
  rx_setup r q = drv.rx_queue_setup q r laid.port_rx_offloads

  abbrev pub tx_setup : ℕ → ℕ → Bool
  tx_setup t q = drv.tx_queue_setup q t c.tx_offloads

  -- What the constructor ends with, and why: the calls before the one that failed did succeed.
  pub data Constructed : Made → Type 0 where
    without_pool : drv.svc_mempool ≡ false → Constructed no_svc_mempool
    without_ring :
        (q : ℕ)
        → drv.svc_mempool ≡ true
        → FirstFailing drv.tx_ring (c.tx.nb_queues - laid.tx_queues) laid.tx_queues q
        → Constructed (no_tx_ring q)
    refused : Ringed → configure ≡ false → Constructed not_configured
    misadjusted : Ringed → configure ≡ true → adjust ≡ none → Constructed not_adjusted
    without_buffers :
        (r t : ℕ)
        → Adjusted r t
        → drv.mempool (nb_mbuf_per_pool c.rx.nb_queues) ≡ false
        → Constructed no_mempool
    without_rx :
        (r t q : ℕ)
        → Buffered r t
        → FirstFailing (rx_setup r) c.rx.nb_queues 0 q
        → Constructed (no_rx_queue q)
    without_tx :
        (r t q : ℕ)
        → Buffered r t
        → AllSetUp (rx_setup r) c.rx.nb_queues 0
        → FirstFailing (tx_setup t) c.tx.nb_queues 0 q
        → Constructed (no_tx_queue q)
    complete :
        (r t : ℕ) (d : Device)
        → Buffered r t
        → AllSetUp (rx_setup r) c.rx.nb_queues 0
        → AllSetUp (tx_setup t) c.tx.nb_queues 0
        → IsLaidOut c d
        → d ≡ finish (with_rings laid r t)
        → d.config.svc_tx_n ≤ length d.tx_jobs
        → Constructed (made d)

  final-IsLaidOut : (r t : ℕ) → IsLaidOut c (finish (with_rings laid r t))
  final-IsLaidOut r t =
      let v = lay_out-IsLaidOut drv c in
      record {
        rx_queues = v.rx_queues;
        tx_queues = v.tx_queues;
        flows = v.flows;
        rings = v.rings;
        rings_used = v.rings_used;
        rx_burst = v.rx_burst;
        tx_burst = v.tx_burst;
        rss = v.rss;
        offloads = v.offloads;
        port_offloads = v.port_offloads;
      }

  svc_bound : (d : Device) → (finish d).config.svc_tx_n ≤ length d.tx_jobs
  svc_bound d = ground arith

  set_up_tx-Constructed :
      (r t : ℕ) (o : Option ℕ)
      → Buffered r t
      → AllSetUp (rx_setup r) c.rx.nb_queues 0
      → first_failing (tx_setup t) (iota c.tx.nb_queues 0) ≡ o
      → Constructed (set_up_tx (with_rings laid r t) o)
  set_up_tx-Constructed r t (some q) b up e = without_tx r t q b up (first_failing-some _ _ 0 q e)
  set_up_tx-Constructed r t none b up e =
      complete r t (finish (with_rings laid r t)) b up (first_failing-none _ _ 0 e)
        (final-IsLaidOut r t) refl (svc_bound (with_rings laid r t))

  set_up_rx-Constructed :
      (r t : ℕ) (o : Option ℕ)
      → Buffered r t
      → first_failing (rx_setup r) (iota c.rx.nb_queues 0) ≡ o
      → Constructed (set_up_rx drv (with_rings laid r t) o)
  unfolding lay_out settle_queues
  set_up_rx-Constructed r t (some q) b e = without_rx r t q b (first_failing-some _ _ 0 q e)
  set_up_rx-Constructed r t none b e =
      set_up_tx-Constructed r t _ b (first_failing-none _ _ 0 e) refl

  adjusted-Constructed :
      (o : Option (ℕ × ℕ))
      → Ringed
      → configure ≡ true
      → adjust ≡ o
      → Constructed (adjusted drv laid o)
  unfolding lay_out settle_queues
  adjusted-Constructed none ri co e = misadjusted ri co e
  adjusted-Constructed (some (r, t)) ri co e =
      elim (Bool-cases (drv.mempool (nb_mbuf_per_pool c.rx.nb_queues))) [
        | inr short ↦ rw short (without_buffers r t (ri, co, e) short)
        | inl enough ↦ rw enough (set_up_rx-Constructed r t _ ((ri, co, e), enough) refl)
      ]

  with_tx_rings-Constructed :
      (o : Option ℕ)
      → drv.svc_mempool ≡ true
      → first_failing drv.tx_ring laid.tx_jobs ≡ o
      → Constructed (with_tx_rings drv laid o)
  unfolding lay_out settle_queues
  with_tx_rings-Constructed (some q) po e = without_ring q po (first_failing-some _ _ _ q e)
  with_tx_rings-Constructed none po e =
      let ri : Ringed = (po, first_failing-none _ _ _ e) in
      elim (Bool-cases configure) [
        | inr refuses ↦ rw refuses (refused ri refuses)
        | inl accepts ↦ rw accepts (adjusted-Constructed _ ri accepts refl)
      ]

-- The constructor throws at the first of its calls that fails: the lookup of the pool for services,
-- the rings of the tx jobs, the configuration of the port, the sizes of the descriptor rings, the pool
-- for packets, the rx queues and the tx queues, in this order, and names the queue of a call that is
-- made for each. If none fails it makes a device, each of whose queues is served once, with as many
-- rings for services as it has or fewer. Its own offloads are the configured ones; the port is asked
-- for receive-side scaling only if more than one queue is left to it.
pub make_device-Constructed :
    (drv : Driver) (c : DeviceConfig) → Constructed drv c (make_device drv c)
unfolding make_device
make_device-Constructed drv c = opened drv.svc_mempool refl
  where
    opened :
        (b : Bool)
        → drv.svc_mempool ≡ b
        → Constructed drv c (
            if b
            then with_tx_rings drv
                (lay_out drv c)
                (first_failing drv.tx_ring (lay_out drv c).tx_jobs)
            else no_svc_mempool)
    opened true e = with_tx_rings-Constructed drv c _ e refl
    opened false e = without_pool e
