-- ===== src/Uip/Chksum/Agree.antt =====
-- Sums over two memories that agree where the sum reads.
use native.Mathlib.Nat.{le_refl}
use fx_ip.Base.{Mem, ap, ap₂, arith, refl, suc, zero, ℕ, ◌*◌, ◌+◌, ◌∙◌, ◌≡◌, ◌≤◌}
use fx_ip.Uip.Chksum.{add_carry, chksum, word_sum}

pub word_sum-agree :
    (m m' : Mem) (i len : ℕ) → ((j : ℕ) → i ≤ j → m j ≡ m' j) → word_sum m i len ≡ word_sum m' i len
unfolding word_sum
word_sum-agree m m' i zero h = refl
word_sum-agree m m' i (suc zero) h = omega (arith, h i (le_refl i))
word_sum-agree m m' i (suc (suc n)) h = omega (
  arith,
  h i (le_refl i),
  h (i + 1) (omega arith),
  word_sum-agree m m' (i + 2) n (λ j k. h j (omega arith)),
)

pub chksum-agree :
    (sum : ℕ) (m m' : Mem) (i len : ℕ)
    → ((j : ℕ) → i ≤ j → m j ≡ m' j)
    → chksum sum m i len ≡ chksum sum m' i len
unfolding chksum
chksum-agree sum m m' i zero h = refl
chksum-agree sum m m' i (suc zero) h = ap (λ x. add_carry sum (x * 256)) (h i (le_refl i))
chksum-agree sum m m' i (suc (suc n)) h =
    chksum-agree (add_carry sum (m i * 256 + m (i + 1))) m m' (i + 2) n (λ j k. h j (omega arith))
    ∙ ap₂ (λ x y. chksum (add_carry sum (x * 256 + y)) m' (i + 2) n) (h i (le_refl i))
        (h (i + 1) (omega arith))
