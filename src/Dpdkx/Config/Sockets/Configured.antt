-- ===== src/Dpdkx/Config/Sockets/Configured.antt =====
-- What `socket_configuration` gives: the spans of the sockets, each with its main core at the end.
use dpdk_tools.Common.{
  ℕ, suc, ◌+◌, ◌≤◌, ◌≡◌, ◌≢◌, refl, sym, subst, ap, ap₂, ◌∙◌, ◌==◌, if◌then◌else◌, Bool-cases, inl,
  inr, List, [], ◌∷◌, ◌++◌, append_assoc, length, length-append, take, drop, take_prefix,
  drop_prefix, arith,
}
use dpdk_tools.Common.Distinct.{Fresh, Distinct, Apart, Fresh-append, Apart-nil}
use dpdk_tools.Dpdkx.Config.Sockets.{Span, move_main, arrange, socket_configuration}
use dpdk_tools.Dpdkx.Config.Sockets.Groups.{
  Group, add, configs, all_cores, grouped, group_cores-grouped,
}
use dpdk_tools.Dpdkx.Config.Sockets.Arranged.{IsArranged, AllArranged}
use dpdk_tools.Dpdkx.Config.Sockets.MainCore.{
  Fresh-join, Distinct-push, MainLast-Fresh, move_main-IsArranged,
}

abbrev InSocket : (ℕ → ℕ) → ℕ → List ℕ → Type 0
InSocket socket_of sid [] = Unit
InSocket socket_of sid (c ∷ cs) = (socket_of c ≡ sid) × InSocket socket_of sid cs

-- Different cores of the socket, one or more.
abbrev IsGroup : (ℕ → ℕ) → Group → Type 0
IsGroup socket_of g =
    Distinct g.cores × InSocket socket_of g.socket_id g.cores × (1 ≤ length g.cores)

abbrev AllGroups : (ℕ → ℕ) → List Group → Type 0
AllGroups socket_of [] = Unit
AllGroups socket_of (g ∷ gs) = IsGroup socket_of g × AllGroups socket_of gs

InSocket-push :
    (socket_of : ℕ → ℕ) (sid c : ℕ) (cs : List ℕ)
    → InSocket socket_of sid cs
    → socket_of c ≡ sid
    → InSocket socket_of sid (cs ++ c ∷ [])
InSocket-push socket_of sid c [] h e = (e, tt)
InSocket-push socket_of sid c (d ∷ ds) (p, h) e = (p, InSocket-push socket_of sid c ds h e)

add-AllGroups :
    (socket_of : ℕ → ℕ) (c : ℕ) (gs : List Group)
    → AllGroups socket_of gs
    → Fresh c (all_cores gs)
    → AllGroups socket_of (add c (socket_of c) gs)
unfolding add
add-AllGroups socket_of c [] h f = (((tt, tt), (refl, tt), omega arith), tt)
add-AllGroups socket_of c (g ∷ gs) ((d, i, n), h) f =
    let (here, later) = Fresh-append c g.cores (all_cores gs) f in
    elim (Bool-cases (g.socket_id == socket_of c)) [
      | inl same ↦
          rw (same, add)
            (
              (
                Distinct-push g.cores c d here,
                InSocket-push socket_of g.socket_id c g.cores i (ground arith),
                omega (arith, length-append g.cores (c ∷ [])),
              ),
              h,
            )
      | inr other ↦ rw (other, add) ((d, i, n), add-AllGroups socket_of c gs h later)
    ]

Fresh-add :
    (d c s : ℕ) (gs : List Group)
    → Fresh d (all_cores gs)
    → d ≢ c
    → Fresh d (all_cores (add c s gs))
unfolding add
Fresh-add d c s [] f ne = (ne, tt)
Fresh-add d c s (g ∷ gs) f ne =
    let (here, later) = Fresh-append d g.cores (all_cores gs) f in
    elim (Bool-cases (g.socket_id == s)) [
      | inl same ↦
          rw (same, add)
            (Fresh-join d (g.cores ++ c ∷ []) (all_cores gs)
              (Fresh-join d g.cores (c ∷ []) here (ne, tt)) later)
      | inr other ↦
          rw (other, add)
            (Fresh-join d g.cores (all_cores (add c s gs)) here (Fresh-add d c s gs later ne))
    ]

Apart-add :
    (ds : List ℕ) (c s : ℕ) (gs : List Group)
    → Apart (all_cores gs) ds
    → Fresh c ds
    → Apart (all_cores (add c s gs)) ds
Apart-add [] c s gs a f = tt
Apart-add (d ∷ ds) c s gs (h, a) (ne, f) =
    (Fresh-add d c s gs h (λ e. ne (sym e)), Apart-add ds c s gs a f)

grouped-AllGroups :
    (socket_of : ℕ → ℕ) (cs : List ℕ) (gs : List Group)
    → Distinct cs
    → Apart (all_cores gs) cs
    → AllGroups socket_of gs
    → AllGroups socket_of (grouped socket_of cs gs)
unfolding grouped
grouped-AllGroups socket_of [] gs d a h = h
grouped-AllGroups socket_of (c ∷ cs) gs (f, d) (new, a) h =
    grouped-AllGroups socket_of cs (add c (socket_of c) gs) d (Apart-add cs c (socket_of c) gs a f)
      (add-AllGroups socket_of c gs h new)

Fresh-InSocket :
    (socket_of : ℕ → ℕ) (main sid : ℕ) (cs : List ℕ)
    → InSocket socket_of sid cs
    → sid ≢ socket_of main
    → Fresh main cs
Fresh-InSocket socket_of main sid [] h ne = tt
Fresh-InSocket socket_of main sid (c ∷ cs) (e, h) ne =
    (λ same. ne (sym e ∙ ap socket_of (sym same)), Fresh-InSocket socket_of main sid cs h ne)

-- A list from its other end.
last_of :
    (cs : List ℕ)
    → 1 ≤ length cs
    → (init : List ℕ) × (z : ℕ) × (cs ≡ init ++ z ∷ []) × (length cs ≡ suc (length init))
last_of [] h = absurd (omega arith)
last_of (c ∷ []) h = ([], c, refl, refl)
last_of (c ∷ (d ∷ cs)) h =
    let (init, z, e, n) = last_of (d ∷ cs) (omega arith) in (c ∷ init, z, ap (◌∷◌ c) e, ap suc n)

-- One step of the loop over the sockets.
abbrev turn : ℕ → ℕ → ℕ → ℕ → ℕ → List ℕ → List ℕ
turn main main_socket offset sid n cores =
    if sid == main_socket then move_main main offset n cores else cores

turn-IsArranged :
    (socket_of : ℕ → ℕ) (main : ℕ) (pre : List ℕ) (g : Group) (post : List ℕ)
    → IsGroup socket_of g
    → (cs : List ℕ) × (turn main
          (socket_of main)
          (length pre)
          g.socket_id
          (length g.cores)
          (pre ++ (g.cores ++ post))
        ≡ pre ++ (cs ++ post))
      × IsArranged main cs (length g.cores)
turn-IsArranged socket_of main pre g post (d, i, n) =
    elim (Bool-cases (g.socket_id == socket_of main)) [
      | inr elsewhere ↦ (
        g.cores,
        rw elsewhere refl,
        (
          d,
          MainLast-Fresh main g.cores
              (Fresh-InSocket socket_of main g.socket_id g.cores i (ground arith)),
          refl,
        ),
      )
      | inl here ↦
          let (init, z, e, len) = last_of g.cores n in
          let (cs, moved, (distinct, main_last, all)) =
            move_main-IsArranged main pre init z post (subst Distinct e d) in
          (
            cs,
            rw here (
                ap₂ (λ k l. move_main main (length pre) k (pre ++ l)) len
                  (ap (λ l. l ++ post) e ∙ append_assoc init (z ∷ []) post)
                ∙ moved),
            (distinct, main_last, all ∙ sym len),
          )
    ]

span_cores :
    (pre cs post : List ℕ) (n : ℕ)
    → length cs ≡ n
    → take n (drop (length pre) (pre ++ (cs ++ post))) ≡ cs
span_cores pre cs post n e =
    ap (take n) (drop_prefix pre (cs ++ post))
    ∙ ap (λ k. take k (cs ++ post)) (sym e)
    ∙ take_prefix cs post

abbrev put : Span → List Span × List ℕ → List Span × List ℕ
put s r = (s ∷ r.0, r.1)

arrange-AllArranged :
    (socket_of : ℕ → ℕ) (main : ℕ) (pre : List ℕ) (gs : List Group)
    → AllGroups socket_of gs
    → (spans : List Span) × (cores : List ℕ) × (arrange main
          (socket_of main)
          (length pre)
          (configs gs)
          (pre ++ all_cores gs)
        ≡ (spans, pre ++ cores))
      × AllArranged main (pre ++ cores) spans
unfolding arrange
arrange-AllArranged socket_of main pre [] h = ([], [], refl, tt)
arrange-AllArranged socket_of main pre (g ∷ gs) (is_group, h) =
    let (cs, turned, arranged) = turn-IsArranged socket_of main pre g (all_cores gs) is_group in
    let (spans, cores, rest, all) = arrange-AllArranged socket_of main (pre ++ cs) gs h in
    let span : Span = record {
      socket_id = g.socket_id;
      offset = length pre;
      cores_n = length g.cores;
    } in
    let at : length pre + length g.cores ≡ length (pre ++ cs) =
      omega (arith, length-append pre cs, arranged.2) in
    (
      span ∷ spans,
      cs ++ cores,
      ap₂ (λ k l. put span (arrange main (socket_of main) k (configs gs) l)) at
            (turned ∙ sym (append_assoc pre cs (all_cores gs)))
          ∙ ap (put span) rest
          ∙ ap (λ l. (span ∷ spans, l)) (append_assoc pre cs cores),
      (
        subst (λ l. IsArranged main l (length g.cores))
            (sym (span_cores pre cs cores (length g.cores) arranged.2)) arranged,
        subst (λ l. AllArranged main l spans) (append_assoc pre cs cores) all,
      ),
    )

-- Where the EAL names each core once, the spans that `socket_configuration` makes have cores that are
-- all different, as many as the socket counts, with the main core nowhere but at the end.
pub socket_configuration-AllArranged :
    (socket_of : ℕ → ℕ) (lcores : List ℕ) (main : ℕ)
    → Distinct lcores
    → AllArranged main
        (socket_configuration socket_of lcores main).1
        (socket_configuration socket_of lcores main).0
unfolding socket_configuration
socket_configuration-AllArranged socket_of lcores main d =
    let gs : List Group = grouped socket_of lcores [] in
    let (spans, cores, is, all) =
      arrange-AllArranged socket_of main [] gs
        (grouped-AllGroups socket_of lcores [] d (Apart-nil lcores) tt) in
    subst (λ r. AllArranged main r.1 r.0)
      (sym (
        ap (λ r. arrange main (socket_of main) 0 r.0 r.1) (group_cores-grouped socket_of lcores [])
        ∙ is))
      all
