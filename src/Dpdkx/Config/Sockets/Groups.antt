-- ===== src/Dpdkx/Config/Sockets/Groups.antt =====
-- The vectors of `socket_configuration` as an abstract grouping of the cores.
use dpdk_tools.Common.{
  ℕ, ◌+◌, ◌≡◌, refl, sym, ap, ap₂, ◌∙◌, ◌==◌, if◌then◌else◌, Bool, Bool-cases, inl, inr, List, [],
  ◌∷◌, ◌++◌, append-nil, append_assoc, length, length-append, take_prefix, drop_prefix, arith,
}
use dpdk_tools.Dpdkx.Config.Sockets.{CoreConfig, insert, push_back, place, group_cores}

-- A socket with its cores.
pub record Group : Type 0 where
  pub socket_id : ℕ
  pub cores : List ℕ

-- A core joins the group of its socket, at the end; a new socket comes last.
unfoldable pub add : ℕ → ℕ → List Group → List Group
add c sid [] = record { socket_id = sid; cores = c ∷ [] } ∷ []
add c sid (g ∷ gs) =
    let rest = add c sid gs in
    if g.socket_id == sid then record g { cores = g.cores ++ c ∷ [] } ∷ gs else g ∷ rest

abbrev pub configs : List Group → List CoreConfig
configs [] = []
configs (g ∷ gs) = record { socket_id = g.socket_id; cores_n = length g.cores } ∷ configs gs

abbrev pub all_cores : List Group → List ℕ
all_cores [] = []
all_cores (g ∷ gs) = g.cores ++ all_cores gs

abbrev pub group_of : ℕ → List Group → List ℕ
group_of sid [] = []
group_of sid (g ∷ gs) = if g.socket_id == sid then g.cores else group_of sid gs

abbrev pub filter : (ℕ → Bool) → List ℕ → List ℕ
filter p [] = []
filter p (x ∷ xs) = if p x then x ∷ filter p xs else filter p xs

insert_prefix : (xs ys : List ℕ) (c : ℕ) → insert (length xs) c (xs ++ ys) ≡ xs ++ (c ∷ ys)
insert_prefix xs ys c = ap₂ (λ a b. a ++ c ∷ b) (take_prefix xs ys) (drop_prefix xs ys)

place-add :
    (c sid : ℕ) (before : List ℕ) (gs : List Group)
    → place c sid (length before) (configs gs) (before ++ all_cores gs)
      ≡ (configs (add c sid gs), before ++ all_cores (add c sid gs))
unfolding place add
place-add c sid before [] =
    ap (λ l. (record { socket_id = sid; cores_n = 1 } ∷ [], push_back c l)) (append-nil before)
place-add c sid before (g ∷ gs) = elim (Bool-cases (g.socket_id == sid)) [
  | inl same ↦
      rw (same, place, add)
        (ap₂ (λ n l. (record { socket_id = g.socket_id; cores_n = n } ∷ configs gs, l))
          (sym (length-append g.cores (c ∷ []))) (joins g.cores (all_cores gs)))
  | inr other ↦
      rw (other, place, add)
        (ap (λ r. (record { socket_id = g.socket_id; cores_n = length g.cores } ∷ r.0, r.1))
          (later g.cores (λ xs. place-add c sid (before ++ xs) gs)))
]
  where
    joins :
        (xs ys : List ℕ)
        → insert (length before + length xs) c (before ++ (xs ++ ys))
          ≡ before ++ ((xs ++ c ∷ []) ++ ys)
    joins xs ys =
        ap₂ (λ n l. insert n c l) (sym (length-append before xs)) (sym (append_assoc before xs ys))
        ∙ insert_prefix (before ++ xs) ys c
        ∙ append_assoc before xs (c ∷ ys)
        ∙ ap (λ l. before ++ l) (sym (append_assoc xs (c ∷ []) ys))

    later :
        (xs : List ℕ)
        → ((ys : List ℕ)
            → place c sid (length (before ++ ys)) (configs gs) ((before ++ ys) ++ all_cores gs)
              ≡ (configs (add c sid gs), (before ++ ys) ++ all_cores (add c sid gs)))
        → place c sid (length before + length xs) (configs gs) (before ++ (xs ++ all_cores gs))
          ≡ (configs (add c sid gs), before ++ (xs ++ all_cores (add c sid gs)))
    later xs rec =
        ap₂ (λ n l. place c sid n (configs gs) l) (sym (length-append before xs))
          (sym (append_assoc before xs (all_cores gs)))
        ∙ rec xs
        ∙ ap (λ l. (configs (add c sid gs), l)) (append_assoc before xs (all_cores (add c sid gs)))

unfoldable pub grouped : (ℕ → ℕ) → List ℕ → List Group → List Group
unfolding add
grouped socket_of [] gs = gs
grouped socket_of (c ∷ cs) gs = grouped socket_of cs (add c (socket_of c) gs)

pub group_cores-grouped :
    (socket_of : ℕ → ℕ) (cs : List ℕ) (gs : List Group)
    → group_cores socket_of cs (configs gs, all_cores gs)
      ≡ (configs (grouped socket_of cs gs), all_cores (grouped socket_of cs gs))
unfolding group_cores grouped
group_cores-grouped socket_of [] gs = refl
group_cores-grouped socket_of (c ∷ cs) gs =
    ap (λ r. group_cores socket_of cs (r.0, r.1)) (place-add c (socket_of c) [] gs)
    ∙ group_cores-grouped socket_of cs (add c (socket_of c) gs)

group_of-add :
    (sid c s : ℕ) (gs : List Group)
    → group_of sid (add c s gs)
      ≡ (if s == sid then group_of sid gs ++ (c ∷ []) else group_of sid gs)
unfolding add
group_of-add sid c s [] = refl
group_of-add sid c s (g ∷ gs) = ground (arith, group_of-add sid c s gs)

group_of-grouped :
    (sid : ℕ) (socket_of : ℕ → ℕ) (cs : List ℕ) (gs : List Group)
    → group_of sid (grouped socket_of cs gs)
      ≡ group_of sid gs ++ filter (λ c. socket_of c == sid) cs
unfolding grouped
group_of-grouped sid socket_of [] gs = sym (append-nil _)
group_of-grouped sid socket_of (c ∷ cs) gs =
    group_of-grouped sid socket_of cs (add c (socket_of c) gs)
    ∙ ap (λ l. l ++ filter (λ c. socket_of c == sid) cs) (group_of-add sid c (socket_of c) gs)
    ∙ elim (Bool-cases (socket_of c == sid)) [
      | inl here ↦ rw here (append_assoc (group_of sid gs) (c ∷ []) _)
      | inr elsewhere ↦ rw elsewhere refl
    ]

-- The two vectors that the loop over the cores fills stand for groups, whose sizes and whose cores,
-- one group after the other, they hold; and the group of a socket has the cores of that socket, in
-- the order of the loop.
pub group_cores-groups :
    (socket_of : ℕ → ℕ) (lcores : List ℕ)
    → (gs : List Group) × (group_cores socket_of lcores ([], []) ≡ (configs gs, all_cores gs))
      × ((sid : ℕ) → group_of sid gs ≡ filter (λ c. socket_of c == sid) lcores)
group_cores-groups socket_of lcores = (
  grouped socket_of lcores [],
  group_cores-grouped socket_of lcores [],
  λ sid. group_of-grouped sid socket_of lcores [],
)
