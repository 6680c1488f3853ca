-- ===== src/Dpdkx/Device/RxJob/Bursts.antt =====
-- Where the packets of a burst go.
use mathlib.Core.List.{append_assoc, map-append}
use dpdk_tools.Common.{
  ℕ, ◌+◌, ◌≤◌, ltb, length, sym, ◌≡◌, ◌∙◌, refl, ap, subst, ◌==◌, if◌then◌else◌, Bool, true, false,
  List, [], ◌∷◌, ◌++◌, map, Option, none, some, arith, ==_iff,
}
use dpdk_tools.Dpdkx.Mbuf.{Mbuf}
use dpdk_tools.Dpdkx.Device.RxJob.{
  Shared, RxJob, Burst, Kind, broken, udp, other, kind, udp_dst_port, find_rx_channel, dispatch,
  Run, buffers_size, flush, headers_set, extends, extend,
}
use dpdk_tools.Dpdkx.Device.RxJob.Shares.{deliveries, of_run, to_free, to_deliver, to_leave}
use dpdk_tools.Dpdkx.Device.RxJob.Find.{Stable, Found, channel_for, find_rx_channel-Found}

pub record Dispatched (j : RxJob) (run : Run) (ps : List Mbuf) (r : Option (Burst × RxJob))
    : Type 0 where
  pub burst : Burst
  pub job : RxJob
  pub result : r ≡ some (burst, job)
  pub freed : burst.freed ≡ to_free ps
  pub delivered : deliveries burst.handed ≡ of_run run ++ to_deliver j.shared.sinks ps
  pub left : burst.left ≡ to_leave j.shared.sinks ps
  pub kept : job ≡ record j { last = job.last }

deliveries-flush :
    (recycled : Bool) (run : Run) (b : Burst)
    → deliveries (flush recycled run b).handed ≡ of_run run ++ deliveries b.handed
deliveries-flush recycled none b = refl
deliveries-flush recycled (some (ch, ps)) b = refl

flush-freed : (recycled : Bool) (run : Run) (b : Burst) → (flush recycled run b).freed ≡ b.freed
flush-freed recycled none b = refl
flush-freed recycled (some (ch, ps)) b = refl

flush-left : (recycled : Bool) (run : Run) (b : Burst) → (flush recycled run b).left ≡ b.left
flush-left recycled none b = refl
flush-left recycled (some (ch, ps)) b = refl

deliver_extend :
    (run : Run) (ch : ℕ) (q : Mbuf) (b : Burst) (rest : List (ℕ × Mbuf))
    → deliveries b.handed ≡ of_run (extend run ch q) ++ rest
    → deliveries (if extends run ch then b else flush true run b).handed
      ≡ of_run run ++ ((ch, q) ∷ rest)
deliver_extend none ch q b rest h = h
deliver_extend (some (cur, ps)) ch q b rest h = by_channel (cur == ch) (==_iff cur ch).0 h
  where
    by_channel :
        (t : Bool)
        → (t ≡ true → cur ≡ ch)
        → deliveries b.handed
          ≡ of_run (if t then some (cur, ps ++ (q ∷ [])) else some (ch, q ∷ [])) ++ rest
        → deliveries (if t then b else flush true (some (cur, ps)) b).handed
          ≡ map (λ p. (cur, p)) ps ++ ((ch, q) ∷ rest)
    by_channel true same g =
        g
        ∙ ap (λ l. l ++ rest) (map-append (λ p. (cur, p)) ps (q ∷ []))
        ∙ append_assoc (map (λ p. (cur, p)) ps) ((cur, q) ∷ []) rest
        ∙ ap (λ c. map (λ p. (cur, p)) ps ++ ((c, q) ∷ rest)) (same refl)
    by_channel false same g = ap (◌++◌ (map (λ p. (cur, p)) ps)) g

-- A job that differs in the cached index alone has the same receivers.
of_kept :
    (j j' : RxJob) (run : Run) (ps : List Mbuf) (r : Option (Burst × RxJob))
    → j' ≡ record j { last = j'.last }
    → Dispatched j' run ps r
    → Dispatched j run ps r
of_kept j j' run ps r k d = record {
  burst = d.burst;
  job = d.job;
  result = d.result;
  freed = d.freed;
  delivered =
      d.delivered
      ∙ ap (λ sinks. of_run run ++ to_deliver sinks ps) (ap (λ (x : RxJob). x.shared.sinks) k);
  left = d.left ∙ ap (λ sinks. to_leave sinks ps) (ap (λ (x : RxJob). x.shared.sinks) k);
  kept = d.kept ∙ ap (λ (x : RxJob). record x { last = d.job.last }) k;
}

module _ (device : Shared) (run : Run) (post_process : ℕ) (p : Mbuf) (ps : List Mbuf)
    (j : RxJob) where
  dispatch_broken :
      kind p ≡ broken
      → Dispatched j none ps (dispatch device none post_process ps j)
      → Dispatched j run (p ∷ ps) (dispatch device run post_process (p ∷ ps) j)
  unfolding dispatch to_free to_deliver to_leave
  dispatch_broken e d = record {
    burst = flush false run (record d.burst { freed = p ∷ d.burst.freed });
    job = d.job;
    result = rw (e, dispatch) (rw d.result refl);
    freed = flush-freed false run _ ∙ ground (arith, d.freed);
    delivered = deliveries-flush false run _ ∙ ap (◌++◌ (of_run run)) (ground (arith, d.delivered));
    left = flush-left false run _ ∙ ground (arith, d.left);
    kept = d.kept;
  }

  dispatch_other :
      kind p ≡ other
      → ltb post_process buffers_size ≡ true
      → Dispatched j none ps (dispatch device none (post_process + 1) ps j)
      → Dispatched j run (p ∷ ps) (dispatch device run post_process (p ∷ ps) j)
  unfolding dispatch to_free to_deliver to_leave
  dispatch_other e room d = record {
    burst = flush false run (record d.burst { left = p ∷ d.burst.left });
    job = d.job;
    result = rw (e, room, dispatch) (rw d.result refl);
    freed = flush-freed false run _ ∙ ground (arith, d.freed);
    delivered = deliveries-flush false run _ ∙ ap (◌++◌ (of_run run)) (ground (arith, d.delivered));
    left = flush-left false run _ ∙ ground (arith, d.left);
    kept = d.kept;
  }

  dispatch_unclaimed :
      (j' : RxJob)
      → kind p ≡ udp
      → channel_for j.shared.sinks (udp_dst_port p) ≡ none
      → find_rx_channel device (udp_dst_port p) j ≡ some (none, j')
      → ltb post_process buffers_size ≡ true
      → Dispatched j none ps (dispatch device none (post_process + 1) ps j')
      → Dispatched j run (p ∷ ps) (dispatch device run post_process (p ∷ ps) j)
  unfolding dispatch to_free to_deliver to_leave
  dispatch_unclaimed j' e c f room d = record {
    burst = flush false run (record d.burst { left = p ∷ d.burst.left });
    job = d.job;
    result = rw (e, dispatch) (rw (f, room, dispatch) (rw d.result refl));
    freed = flush-freed false run _ ∙ ground (arith, d.freed);
    delivered =
        deliveries-flush false run _ ∙ ap (◌++◌ (of_run run)) (ground (arith, d.delivered, c));
    left = flush-left false run _ ∙ ground (arith, d.left, c);
    kept = d.kept;
  }

  dispatch_claimed :
      (j' : RxJob) (ch : ℕ)
      → kind p ≡ udp
      → channel_for j.shared.sinks (udp_dst_port p) ≡ some ch
      → find_rx_channel device (udp_dst_port p) j ≡ some (some ch, j')
      → Dispatched j
          (extend run ch (headers_set p))
          ps
          (dispatch device (extend run ch (headers_set p)) post_process ps j')
      → Dispatched j run (p ∷ ps) (dispatch device run post_process (p ∷ ps) j)
  unfolding dispatch to_free to_deliver to_leave
  dispatch_claimed j' ch e c f d = record {
    burst = if extends run ch then d.burst else flush true run d.burst;
    job = d.job;
    result = rw (e, dispatch) (rw (f, dispatch) (rw d.result refl));
    freed = ground (arith, d.freed, flush-freed true run d.burst);
    delivered =
        deliver_extend run ch (headers_set p) d.burst (to_deliver j.shared.sinks ps) d.delivered
        ∙ ap (◌++◌ (of_run run)) (ground (arith, c, e));
    left = ground (arith, d.left, c, flush-left true run d.burst);
    kept = d.kept;
  }

-- On a stable job, where `buffers_` has room behind the index it starts from for all packets that are
-- left, a burst is dispatched without an access past the sinks or past `buffers_`: the broken packets
-- are freed; each sound UDP packet whose port has a receiver is delivered to that receiver, with its
-- header lengths filled in; the others are left to the device. Each of the three keeps the order of
-- arrival, and what was waiting for its channel is delivered first. Of the job only the cached index
-- changes.
pub dispatch-Dispatched :
    (device : Shared) (run : Run) (post_process : ℕ) (ps : List Mbuf) (j : RxJob)
    → Stable j
    → post_process + length (to_leave j.shared.sinks ps) ≤ buffers_size
    → Dispatched j run ps (dispatch device run post_process ps j)
unfolding to_free to_deliver to_leave
dispatch-Dispatched device run post_process [] j s h = record {
  burst = flush false run (record { freed = []; handed = []; left = [] });
  job = j;
  result = unfold dispatch in refl;
  freed = flush-freed false run _;
  delivered = deliveries-flush false run _;
  left = flush-left false run _;
  kept = refl;
}
dispatch-Dispatched device run post_process (p ∷ ps) j s h =
    by_kind (kind p) refl (channel_for j.shared.sinks (udp_dst_port p)) refl
      (find_rx_channel-Found device (udp_dst_port p) j s)
      (λ r n j' t room. dispatch-Dispatched device r n ps j' t room)
  where
    by_kind :
        (k : Kind)
        → kind p ≡ k
        → (c : Option ℕ) → channel_for j.shared.sinks (udp_dst_port p) ≡ c
        → Found (udp_dst_port p) j (find_rx_channel device (udp_dst_port p) j)
        → ((r : Run) (n : ℕ) (j' : RxJob)
            → Stable j'
            → n + length (to_leave j'.shared.sinks ps) ≤ buffers_size
            → Dispatched j' r ps (dispatch device r n ps j'))
        → Dispatched j run (p ∷ ps) (dispatch device run post_process (p ∷ ps) j)
    by_kind broken e c ec f rec =
        dispatch_broken device run post_process p ps j e (rec none post_process j s (ground arith))
    by_kind other e c ec f rec =
        dispatch_other device run post_process p ps j e (ground arith)
          (rec none (post_process + 1) j s (ground arith))
    by_kind udp e none ec f rec =
        dispatch_unclaimed device run post_process p ps j f.job e ec
          (f.result ∙ ap (λ o. some (o, f.job)) ec) (ground arith)
          (of_kept j f.job none ps _ f.kept (
            rec none (post_process + 1) f.job f.stable (
              subst (λ sinks. post_process + 1 + length (to_leave sinks ps) ≤ buffers_size)
                (sym (ap (λ (x : RxJob). x.shared.sinks) f.kept)) (ground arith))))
    by_kind udp e (some ch) ec f rec =
        let next = extend run ch (headers_set p) in
        dispatch_claimed device run post_process p ps j f.job ch e ec
          (f.result ∙ ap (λ o. some (o, f.job)) ec)
          (of_kept j f.job next ps _ f.kept (
            rec next post_process f.job f.stable (
              subst (λ sinks. post_process + length (to_leave sinks ps) ≤ buffers_size)
                (sym (ap (λ (x : RxJob). x.shared.sinks) f.kept)) (ground arith))))
