-- ===== src/Uip/Input/Echo.antt =====
-- The reply to an ICMP echo request: the checksum is updated, not computed again.
use fx_ip.Base.{
  Bool-cases, IsBytes, Mem, [], ap, arith, blit, if◌then◌else◌, inl, inr, leb, refl, suc, sym, ℕ,
  ◌%◌, ◌*◌, ◌+◌, ◌-◌, ◌<◌, ◌^◌, ◌∙◌, ◌∷◌, ◌≡◌, ◌≤◌,
}
use fx_ip.Uip.Chksum.{ones, ones_lem, word_sum}
use fx_ip.Uip.Config.{
  at_destipaddr, at_icmp_type, at_icmpchksum, at_proto, at_srcipaddr, uip_proto_icmp,
}
use fx_ip.Uip.Input.{icmp_input}
use fx_ip.Uip.Send.{send}
use fx_ip.Uip.State.{Stack, bytes16, bytes_ip, get16, get_ip}
use fx_ip.Uip.Chksum.Agree.{word_sum-agree}

-- One's complement sums repeat after 65535.
ones-around : (t : ℕ) → 0 < t → ones (t + 65535) ≡ ones t
ones-around t h = elim (ones_lem t) [
  | inl (e, f) ↦ absurd (omega arith)
  | inr (e, f) ↦ elim (ones_lem (t + 65535)) [
    | inl (g, k) ↦ absurd (omega arith)
    | inr (g, k) ↦ omega arith
  ]
]

-- the new checksum field
abbrev updated : ℕ → ℕ
updated v = if leb (0xffff - 0x800) v then (v + 0x800 + 1) % 2 ^ 16 else (v + 0x800) % 2 ^ 16

updated-range : (v : ℕ) → v < 2 ^ 16 → updated v < 2 ^ 16
updated-range v h = ground arith

updated_sum :
    (v rest : ℕ) → v < 2 ^ 16 → 0 < rest → ones (updated v + rest) ≡ ones (0x800 + v + rest)
updated_sum v rest h k = elim (Bool-cases (leb (0xffff - 0x800) v)) [
  | inl e ↦
      rw e
        (sym (ones-around ((v + 0x800 + 1) % 2 ^ 16 + rest) (omega arith)) ∙ ap ones (ground arith))
  | inr e ↦ rw e (ap ones (ground arith))
]

word_sum_four :
    (m : Mem) (i n : ℕ)
    → word_sum m i (suc (suc (suc (suc n))))
      ≡ m i * 256 + m (i + 1) + (m (i + 2) * 256 + m (i + 2 + 1) + word_sum m (i + 2 + 2) n)
unfolding word_sum
word_sum_four m i n = refl

-- the buffer of the reply
abbrev reply : {A : Type 0} → Stack A → Mem
reply s =
    let echo =
      blit (blit s.buf at_icmp_type (0 ∷ [])) at_icmpchksum
        (bytes16 (updated (get16 s.buf at_icmpchksum))) in
    blit (blit echo at_destipaddr (bytes_ip (get_ip s.buf at_srcipaddr))) at_srcipaddr
      (bytes_ip s.hostaddr)

reply_tail : {A : Type 0} (s : Stack A) (j : ℕ) → 24 ≤ j → reply s j ≡ s.buf j
reply_tail s j h = ground arith

module _ {A : Type 0} (s : Stack A) where
  reply-icmp_input :
      s.buf at_proto ≡ uip_proto_icmp → s.buf at_icmp_type ≡ 8 → (icmp_input s).buf ≡ reply s
  unfolding icmp_input send
  reply-icmp_input p t = rw (p, t) refl

  -- The reply to an ICMP echo request, with a buffer of bytes and a body behind the checksum whose
  -- words are not all 0, has the same one's complement sum as the request, over any length of the
  -- message: the updated checksum verifies where that of the request did.
  pub icmp_input-chksum :
      (n : ℕ)
      → IsBytes s.buf
      → s.buf at_proto ≡ uip_proto_icmp
      → s.buf at_icmp_type ≡ 8
      → 0 < word_sum s.buf 24 n
      → ones (word_sum (icmp_input s).buf 20 (suc (suc (suc (suc n)))))
        ≡ ones (word_sum s.buf 20 (suc (suc (suc (suc n)))))
  icmp_input-chksum n b p t h =
      ap (λ m. ones (word_sum m 20 (suc (suc (suc (suc n)))))) (reply-icmp_input p t)
      ∙ ap ones (omega (arith, word_sum_four (reply s) 20 n, tail))
      ∙ updated_sum v (s.buf 21 + word_sum s.buf 24 n) (omega (arith, b 22, b 23)) (omega arith)
      ∙ ap ones (omega (arith, word_sum_four s.buf 20 n))
    where
      v : ℕ
      v = get16 s.buf at_icmpchksum

      tail : word_sum (reply s) 24 n ≡ word_sum s.buf 24 n
      tail = word_sum-agree (reply s) s.buf 24 n (reply_tail s)
