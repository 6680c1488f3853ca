-- ===== src/Sockperf/Seqn/Laws.antt =====
-- What `make_seqn`, `split_seqn` and the warm-up mark keep apart, and where they do not.
use dpdk_tools.Common.{ℕ, ◌+◌, ◌*◌, ◌/◌, ◌%◌, ◌^◌, ◌<◌, ◌≡◌, ◌∙◌, ap, ap₂, true, arith, leb, bit_or}
use dpdk_tools.Common.Bits.{bit_and_mask, bit_and_pow, bit_or_high, bit_or_pow}
use dpdk_tools.Sockperf.Seqn.{warmup_mask, is_warmup, warmup, make_seqn, split_seqn}

make_seqn_sum : (q n : ℕ) → q < 2 ^ 8 → n < 2 ^ 56 → make_seqn q n ≡ q * 2 ^ 56 + n
unfolding make_seqn
make_seqn_sum q n hq hn = ap (λ t. bit_or t n) (omega arith) ∙ bit_or_high 56 q n hn

-- For a queue of one byte and a count of 56 bits, the queue comes back whole, and of the count the
-- low 28 bits come back. So the split undoes the packing exactly for counts below 2 ^ 28.
pub split_seqn-make_seqn :
    (q n : ℕ) → q < 2 ^ 8 → n < 2 ^ 56 → split_seqn (make_seqn q n) ≡ (q, n % 2 ^ 28)
unfolding split_seqn
split_seqn-make_seqn q n hq hn =
    ap₂ {C = ℕ × ℕ} (λ a b. (a, b)) (omega (arith, make_seqn_sum q n hq hn))
      (bit_and_mask 28 (make_seqn q n) ∙ omega (arith, make_seqn_sum q n hq hn))

is_warmup_lem : (n : ℕ) → is_warmup n ≡ leb 1 (n / 2 ^ 63 % 2)
unfolding is_warmup
is_warmup_lem n = ground (arith, bit_and_pow 63 n)

-- A number with the mark is recognised as a warm-up message, and loses nothing else: below 2 ^ 63
-- the mark adds exactly 2 ^ 63, and marking twice is marking once.
pub is_warmup-warmup :
    (n : ℕ)
    → n < 2 ^ 63
    → (is_warmup (warmup n) ≡ true) × (warmup n ≡ n + 2 ^ 63) × (warmup (warmup n) ≡ warmup n)
unfolding warmup
is_warmup-warmup n h = (
  is_warmup_lem (bit_or n warmup_mask) ∙ ground (arith, bit_or_pow 63 n),
  bit_or_pow 63 n ∙ omega arith,
  bit_or_pow 63 (bit_or n warmup_mask) ∙ omega (arith, bit_or_pow 63 n),
)

-- A measured packet, whose count has 56 bits, is taken for a warm-up message exactly when its queue
-- is 128 or above.
is_warmup-make_seqn : (q n : ℕ) → q < 2 ^ 8 → n < 2 ^ 56 → is_warmup (make_seqn q n) ≡ leb 128 q
is_warmup-make_seqn q n hq hn =
    is_warmup_lem (make_seqn q n) ∙ ground (arith, make_seqn_sum q n hq hn)
