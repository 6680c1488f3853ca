-- ===== src/Dpdkx/Config/Options/Equality.antt =====
-- The comparison of texts.
use dpdk_tools.Common.{◌≡◌, refl, true, [], ◌∷◌, arith}
use dpdk_tools.Dpdkx.Config.Options.{Text, equal}

pub equal_refl : (s : Text) → equal s s ≡ true
equal_refl [] = refl
equal_refl (c ∷ cs) = ground (arith, equal_refl cs)

pub equal→eq : (s t : Text) → equal s t ≡ true → s ≡ t
equal→eq [] [] h = refl
equal→eq [] (d ∷ ds) h = absurd (ground arith)
equal→eq (c ∷ cs) [] h = absurd (ground arith)
equal→eq (c ∷ cs) (d ∷ ds) h = ground (arith, equal→eq cs ds)
