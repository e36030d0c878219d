-- ===== src/Uip/Chksum.antt =====
-- The Internet checksum of uip.c, and its reference definition.
pub mod Agree
use fx_ip.Base.{
  ℕ, zero, suc, ◌+◌, ◌-◌, ◌*◌, ◌/◌, ◌%◌, ◌^◌, ◌≤◌, ◌<◌, ◌≡◌, ◌≢◌, refl, sym, ap, ◌⊎◌, inl, inr, ◌∙◌,
  ltb, ◌==◌, if◌then◌else◌, arith, Mem, IsBytes,
}

abbrev pub u16_mod : ℕ
u16_mod = 2 ^ 16

-- `sum += t; if(sum < t) sum++;` over `u16_t`
unfoldable pub add_carry : ℕ → ℕ → ℕ
add_carry sum t = let s = (sum + t) % u16_mod in if ltb s t then (s + 1) % u16_mod else s

-- `chksum(sum, data, len)` for the `len` bytes from index `i` on
unfoldable pub chksum : ℕ → Mem → ℕ → ℕ → ℕ
chksum sum m i zero = sum
chksum sum m i (suc zero) = add_carry sum (m i * 256)
chksum sum m i (suc (suc n)) = chksum (add_carry sum (m i * 256 + m (i + 1))) m (i + 2) n

-- The reference: the plain sum of the 16-bit words, an odd last byte being the high one …
unfoldable pub word_sum : Mem → ℕ → ℕ → ℕ
word_sum m i zero = 0
word_sum m i (suc zero) = m i * 256
word_sum m i (suc (suc n)) = m i * 256 + m (i + 1) + word_sum m (i + 2) n

-- … and its one's complement representative: 0 for 0 alone, 1 to 65535 for any other sum.
unfoldable pub ones : ℕ → ℕ
ones zero = 0
ones (suc n) = n % 65535 + 1

pub ones_lem : (n : ℕ) → ((n ≡ 0) × (ones n ≡ 0)) ⊎ ((0 < n) × (ones n ≡ (n - 1) % 65535 + 1))
unfolding ones
ones_lem zero = inl (refl, refl)
ones_lem (suc n) = inr (omega arith, ap (λ t. t % 65535 + 1) (omega arith))

ones_step : (a t : ℕ) → a ≤ 65535 → t ≤ 65535 → add_carry a t ≡ ones (a + t)
unfolding add_carry
ones_step a t h k = elim (ones_lem (a + t)) [
  | inl (e, f) ↦ ground arith
  | inr (e, f) ↦ ground arith
]

pub ones-ones : (a b : ℕ) → ones (ones a + b) ≡ ones (a + b)
ones-ones a b = elim (ones_lem a) [
  | inl (e, f) ↦ ap ones (omega arith)
  | inr (e, f) ↦ elim (ones_lem (ones a + b)) [
    | inl (g, h) ↦ absurd (omega arith)
    | inr (g, h) ↦ elim (ones_lem (a + b)) [
      | inl (u, v) ↦ absurd (omega arith)
      | inr (u, v) ↦ omega arith
    ]
  ]
]

pub ones-le : (n : ℕ) → ones n ≤ 65535
ones-le n = elim (ones_lem n) [ inl (e, f) ↦ omega arith | inr (e, f) ↦ omega arith ]

ones-id : (n : ℕ) → n ≤ 65535 → ones n ≡ n
ones-id n h = elim (ones_lem n) [ inl (e, f) ↦ omega arith | inr (e, f) ↦ omega arith ]

-- `chksum` computes the one's complement sum of RFC 1071: the plain sum of the words, added to a
-- start value of at most 65535, modulo 65535, with 0 only for a sum that is 0, for a memory of
-- bytes.
pub chksum-eq-ones :
    (sum : ℕ) (m : Mem) (i len : ℕ)
    → sum ≤ 65535
    → IsBytes m
    → chksum sum m i len ≡ ones (sum + word_sum m i len)
unfolding chksum word_sum
chksum-eq-ones sum m i zero h b = sym (ap ones (omega arith) ∙ ones-id sum h)
chksum-eq-ones sum m i (suc zero) h b = ones_step sum (m i * 256) h (omega (arith, b i))
chksum-eq-ones sum m i (suc (suc n)) h b =
    let t = m i * 256 + m (i + 1) in
    let step : add_carry sum t ≡ ones (sum + t) =
      ones_step sum t h (omega (arith, b i, b (i + 1))) in
    chksum-eq-ones (add_carry sum t) m (i + 2) n (omega (arith, step, ones-le (sum + t))) b
    ∙ ap (λ a. ones (a + word_sum m (i + 2) n)) step
    ∙ ones-ones (sum + t) (word_sum m (i + 2) n)
    ∙ ap ones (omega arith)

-- A sum of words verifies once the complement of the sum of the rest is added as one more word,
-- with 0 sent as 0xffff, as `uip_ipchksum` and `upper_layer_chksum` do.
unfoldable pub complement : ℕ → ℕ
complement sum = 65535 - (if sum == 0 then 0xffff else sum)

pub ones-complement : (total : ℕ) → 0 < total → ones (total + complement (ones total)) ≡ 65535
unfolding complement
ones-complement total h = elim (ones_lem total) [
  | inl (e, f) ↦ absurd (omega arith)
  | inr (e, f) ↦ elim (ones_lem (total + complement (ones total))) [
    | inl (g, k) ↦ absurd (omega arith)
    | inr (g, k) ↦ ground arith
  ]
]
