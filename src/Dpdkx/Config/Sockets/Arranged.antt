-- ===== src/Dpdkx/Config/Sockets/Arranged.antt =====
-- The cores of a socket as a program relies on them.
use dpdk_tools.Common.{ℕ, ◌≡◌, ◌≢◌, List, [], ◌∷◌, length, take, drop}
use dpdk_tools.Common.Distinct.{Distinct}
use dpdk_tools.Dpdkx.Config.Sockets.{Span}

-- The main core is at the end, if it is one of them at all.
abbrev pub MainLast : ℕ → List ℕ → Type 0
MainLast main [] = Unit
MainLast main (c ∷ []) = Unit
MainLast main (c ∷ (d ∷ cs)) = (main ≢ c) × MainLast main (d ∷ cs)

abbrev pub IsArranged : ℕ → List ℕ → ℕ → Type 0
IsArranged main cores n = Distinct cores × MainLast main cores × (length cores ≡ n)

-- The cores of a socket, a span into the vector.
abbrev pub cores_of : List ℕ → Span → List ℕ
cores_of cores s = take s.cores_n (drop s.offset cores)

abbrev pub AllArranged : ℕ → List ℕ → List Span → Type 0
AllArranged main cores [] = Unit
AllArranged main cores (s ∷ ss) =
    IsArranged main (cores_of cores s) s.cores_n × AllArranged main cores ss
