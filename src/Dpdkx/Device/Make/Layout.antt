-- ===== src/Dpdkx/Device/Make/Layout.antt =====
-- How the queues of a device are divided between its jobs.
use dpdk_tools.Common.{
  ℕ, zero, suc, min, ◌+◌, ◌-◌, ◌≤◌, ◌<◌, ◌≡◌, refl, sym, ap, ap₂, subst, ◌∙◌, ltb, ◌&&◌,
  if◌then◌else◌, Bool, false, Bool-cases, ◌⊎◌, inl, inr, arith, ◌∷◌, ◌++◌, length,
}
use dpdk_tools.Dpdkx.Device.Make.{
  DeviceConfig, Device, rss_hash, without, Driver, iota, settle_queues, lay_out,
}

iota_append : (a b i : ℕ) → iota a i ++ iota b (i + a) ≡ iota (a + b) i
iota_append zero b i = ap₂ (λ n k. iota n k) (omega arith) (omega arith)
iota_append (suc a) b i =
    ap (◌∷◌ i) (ap (λ k. iota a (suc i) ++ iota b k) (omega arith) ∙ iota_append a b (suc i))
    ∙ ap (λ n. iota n i) next
  where
    next : suc (a + b) ≡ suc a + b
    next = omega arith

-- A part of the queues, and the others behind or before it.
iota_parts : (n k : ℕ) → k ≤ n → iota (n - k) 0 ++ iota k (n - k) ≡ iota n 0
iota_parts n k h =
    ap (λ i. iota (n - k) 0 ++ iota k i) (omega arith)
    ∙ iota_append (n - k) k 0
    ∙ ap (λ m. iota m 0) (omega arith)

iota_rest : (n k : ℕ) → k ≤ n → iota k 0 ++ iota (n - k) k ≡ iota n 0
iota_rest n k h =
    ap (λ i. iota k 0 ++ iota (n - k) i) (omega arith)
    ∙ iota_append k (n - k) 0
    ∙ ap (λ m. iota m 0) (omega arith)

pub length-iota : (n i : ℕ) → length (iota n i) ≡ n
length-iota zero i = refl
length-iota (suc n) i = ap suc (length-iota n (suc i))

rss_cases : (n : ℕ) (b : Bool) → ((ltb 1 n && b) ≡ false) ⊎ (1 < length (iota n 0))
rss_cases n b = elim (Bool-cases (ltb 1 n)) [
  | inl many ↦ inr (subst (λ k. 1 < k) (sym (length-iota n 0)) (ground arith))
  | inr few ↦ inl (rw few refl)
]

-- Every queue is served once: the rx queues by the rx jobs and the flow queues, the tx queues by
-- those that sinks take and by the tx jobs.
pub record IsLaidOut (c : DeviceConfig) (d : Device) : Type 0 where
  pub rx_queues : d.rx_jobs ++ d.flow_queues ≡ iota c.rx.nb_queues 0
  pub tx_queues : iota d.tx_queues 0 ++ d.tx_jobs ≡ iota c.tx.nb_queues 0
  pub flows : length d.flow_queues ≤ c.rx_flow_queues
  pub rings : length d.tx_jobs ≤ c.tx_rings
  pub rings_used : min c.tx_rings c.tx.nb_queues ≤ length d.tx_jobs
  pub rx_burst : 0 < d.config.rx.burst_size
  pub tx_burst : 0 < d.config.tx.burst_size
  pub rss : (d.rss ≡ false) ⊎ (1 < length d.rx_jobs)
  pub offloads : d.config.rx_offloads ≡ c.rx_offloads
  pub port_offloads :
      d.port_rx_offloads
      ≡ (if ltb 1 (length d.rx_jobs) then c.rx_offloads else without c.rx_offloads rss_hash)

pub lay_out-IsLaidOut : (drv : Driver) (c : DeviceConfig) → IsLaidOut c (lay_out drv c)
unfolding lay_out settle_queues
lay_out-IsLaidOut drv c = record {
  rx_queues = iota_parts c.rx.nb_queues _ (ground arith);
  tx_queues = iota_rest c.tx.nb_queues _ (ground arith);
  flows = subst (λ n. n ≤ c.rx_flow_queues) (sym (length-iota _ _)) (ground arith);
  rings = subst (λ n. n ≤ c.tx_rings) (sym (length-iota _ _)) (ground arith);
  rings_used =
      subst (λ n. min c.tx_rings c.tx.nb_queues ≤ n) (sym (length-iota _ _)) (ground arith);
  rx_burst = ground arith;
  tx_burst = ground arith;
  rss = rss_cases _ _;
  offloads = refl;
  port_offloads =
      ap (λ n. if ltb 1 n then c.rx_offloads else without c.rx_offloads rss_hash)
        (sym (length-iota _ 0));
}
