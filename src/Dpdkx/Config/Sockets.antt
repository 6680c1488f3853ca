-- ===== src/Dpdkx/Config/Sockets.antt =====
-- dpdkx/config/socket.cpp: the cores of the machine by socket.
pub mod Groups
pub mod Arranged
mod MainCore
pub mod Configured
use dpdk_tools.Common.{
  ℕ, zero, suc, ◌+◌, ◌-◌, ◌%◌, ◌^◌, ltb, ◌==◌, if◌then◌else◌, Bool, true, false, List, [], ◌∷◌,
  ◌++◌, length, get_elem?, set, take, drop, Option, none, some,
}

pub record CoreConfig : Type 0 where
  pub socket_id : ℕ
  pub cores_n : ℕ

abbrev pub insert {ℓ} : {A : Type ℓ} → ℕ → A → List A → List A
insert i x xs = take i xs ++ x ∷ drop i xs

abbrev pub push_back {ℓ} : {A : Type ℓ} → A → List A → List A
push_back x xs = xs ++ x ∷ []

-- The loop over the sockets, for one core: `core` is the iterator into the cores, at the start of the
-- group of the first socket that is left.
unfoldable pub place : ℕ → ℕ → ℕ → List CoreConfig → List ℕ → List CoreConfig × List ℕ
place lcore_id socket_id core [] cores =
    (record { socket_id = socket_id; cores_n = 1 } ∷ [], push_back lcore_id cores)
place lcore_id socket_id core (s ∷ ss) cores =
    let rest = place lcore_id socket_id (core + s.cores_n) ss cores in
    if s.socket_id == socket_id
    then (record s { cores_n = s.cores_n + 1 } ∷ ss, insert (core + s.cores_n) lcore_id cores)
    else (s ∷ rest.0, rest.1)

-- The loop over the cores; `socket_of` is `rte_lcore_to_socket_id`.
unfoldable pub group_cores : (ℕ → ℕ) → List ℕ → List CoreConfig × List ℕ → List CoreConfig × List ℕ
unfolding place
group_cores socket_of [] r = r
group_cores socket_of (c ∷ cs) r = group_cores socket_of cs (place c (socket_of c) 0 r.0 r.1)

abbrev pub is_at : ℕ → Option ℕ → Bool
is_at x none = false
is_at x (some y) = x == y

-- `std::find` from an index, over the number of elements that the range has.
unfoldable pub find : ℕ → List ℕ → ℕ → ℕ → ℕ
find x cores i zero = i
find x cores i (suc n) =
    let rest = find x cores (i + 1) n in if is_at x (get_elem? cores i) then i else rest

unfoldable pub swap : ℕ → ℕ → List ℕ → List ℕ
swap i j cores = elim (get_elem? cores i) [
  | none ↦ cores
  | some a ↦ elim (get_elem? cores j) [ none ↦ cores | some b ↦ set (set cores i b) j a ]
]

-- The main core goes to the end of its group, which starts at `offset`.
unfoldable pub move_main : ℕ → ℕ → ℕ → List ℕ → List ℕ
unfolding find swap
move_main main_core offset cores_n cores =
    let end_socket = offset + (cores_n - 1) in
    let i = find main_core cores offset (cores_n - 1) in
    if i == end_socket then cores else swap i end_socket cores

-- A span into the vector of the cores.
pub record Span : Type 0 where
  pub socket_id : ℕ
  pub offset : ℕ
  pub cores_n : ℕ

unfoldable pub arrange : ℕ → ℕ → ℕ → List CoreConfig → List ℕ → List Span × List ℕ
unfolding move_main
arrange main_core main_core_socket_id offset [] cores = ([], cores)
arrange main_core main_core_socket_id offset (s ∷ ss) cores =
    let cores' =
      if s.socket_id == main_core_socket_id
      then move_main main_core offset s.cores_n cores
      else cores in
    let rest = arrange main_core main_core_socket_id (offset + s.cores_n) ss cores' in
    (record { socket_id = s.socket_id; offset = offset; cores_n = s.cores_n } ∷ rest.0, rest.1)

unfoldable pub socket_configuration : (ℕ → ℕ) → List ℕ → ℕ → List Span × List ℕ
unfolding group_cores arrange
socket_configuration socket_of lcores main_core =
    let r = group_cores socket_of lcores ([], []) in
    arrange main_core (socket_of main_core) 0 r.0 r.1

-- The queues that the driver proposes, and the socket.
pub record Proposed : Type 0 where
  pub rx_queues : ℕ
  pub tx_queues : ℕ
  pub socket_id : ℕ

unfoldable pub adjust_to_socket : Proposed → Span → Proposed
adjust_to_socket dev socket =
    let cores_n = socket.cores_n % 2 ^ 16 in
    record dev {
      rx_queues = if ltb cores_n dev.rx_queues then cores_n else dev.rx_queues;
      tx_queues = if ltb cores_n dev.tx_queues then cores_n else dev.tx_queues;
      socket_id = socket.socket_id;
    }
