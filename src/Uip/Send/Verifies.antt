-- ===== src/Uip/Send/Verifies.antt =====
-- Every packet that leaves by the labels `tcp_send_noconn` and `ip_send_nolen` carries checksums
-- that verify.
use fx_ip.Base.{
  AllBytes, IsBytes, Mem, [], ap, ap₂, arith, blit, blit-IsBytes, blit_outside, inr, refl, suc, ℕ,
  ◌%◌, ◌*◌, ◌+◌, ◌-◌, ◌<◌, ◌^◌, ◌∙◌, ◌∷◌, ◌≡◌, ◌≤◌,
}
use fx_ip.Uip.Chksum.{
  chksum, chksum-eq-ones, complement, ones, ones-complement, ones-le, ones-ones, word_sum,
}
use fx_ip.Uip.Chksum.Agree.{chksum-agree, word_sum-agree}
use fx_ip.Uip.Config.{
  at_ipchksum, at_ipid, at_ipoffset, at_len, at_tcpchksum, at_ttl, at_urgp, at_vhl, uip_proto_tcp,
  uip_ttl,
}
use fx_ip.Uip.Send.{
  htons, ip_header, ip_send_nolen, nonzero, not16, send, tcp_lengths, tcp_send_noconn, uip_ipchksum,
  uip_tcpchksum, upper_layer_len,
}
use fx_ip.Uip.State.{Stack, bytes16, fill}

nonzero-complement : (t : ℕ) → 0 < t → not16 (nonzero (ones t)) ≡ complement (ones t)
nonzero-complement t h = unfold complement htons in refl

-- A word that held 0 and gets the complement of the sum makes the sum verify.
fixed_sum :
    (t v t' : ℕ) → 0 < t → v ≡ not16 (nonzero (ones t)) → t' ≡ t + v → nonzero (ones t') ≡ 0xffff
unfolding htons
fixed_sum t v t' h e f =
    ap nonzero (ap ones (f ∙ ap (λ x. t + x) (e ∙ nonzero-complement t h)) ∙ ones-complement t h)

ipchksum-eq : (m : Mem) → IsBytes m → uip_ipchksum m ≡ nonzero (ones (word_sum m 0 20))
unfolding uip_ipchksum
ipchksum-eq m b = ap nonzero (chksum-eq-ones 0 m 0 20 (omega arith) b ∙ ap ones (omega arith))

nonzero_range : (x : ℕ) → x ≤ 65535 → not16 (nonzero x) < 2 ^ 16
unfolding htons
nonzero_range x h = ground arith

bytes16-AllBytes : (v : ℕ) → v < 2 ^ 16 → AllBytes (bytes16 v)
bytes16-AllBytes v h = omega arith

-- The IP header checksum verifies once it has been filled in.
ipchksum_fixed :
    (m : Mem)
    → IsBytes m
    → 0 < m 0
    → m 10 ≡ 0
    → m 11 ≡ 0
    → uip_ipchksum (blit m 10 (bytes16 (not16 (uip_ipchksum m)))) ≡ 0xffff
ipchksum_fixed m b h e f =
    ipchksum-eq (blit m 10 (bytes16 v)) (blit-IsBytes m 10 (bytes16 v) b (bytes16-AllBytes v small))
    ∙ fixed_sum (word_sum m 0 20) v (word_sum (blit m 10 (bytes16 v)) 0 20)
        (unfold word_sum in omega arith) (ap not16 (ipchksum-eq m b))
        (unfold word_sum in omega arith)
  where
    v : ℕ
    v = not16 (uip_ipchksum m)

    small : v < 2 ^ 16
    small = rw (ipchksum-eq m b) (nonzero_range (ones (word_sum m 0 20)) (ones-le _))

-- the sum that `upper_layer_chksum` takes
abbrev tcp_sum : Mem → ℕ
tcp_sum m =
    (upper_layer_len m + uip_proto_tcp) % 2 ^ 16
    + word_sum m 12 8
    + word_sum m 20 (upper_layer_len m)

tcpchksum-eq : (m : Mem) → IsBytes m → uip_tcpchksum m ≡ nonzero (ones (tcp_sum m))
unfolding uip_tcpchksum
tcpchksum-eq m b = ap nonzero (
    ap (λ t. chksum t m 20 l) (chksum-eq-ones start m 12 8 (omega arith) b)
    ∙ chksum-eq-ones (ones (start + word_sum m 12 8)) m 20 l (ones-le _) b
    ∙ ones-ones (start + word_sum m 12 8) (word_sum m 20 l))
  where
    l : ℕ
    l = upper_layer_len m

    start : ℕ
    start = (upper_layer_len m + uip_proto_tcp) % 2 ^ 16

-- the words of a TCP segment of at least 18 bytes, with its checksum the ninth
segment_sum :
    (m : Mem) (k : ℕ)
    → word_sum m 20 (18 + k) ≡ word_sum m 20 16 + (m 36 * 256 + m 37) + word_sum m 38 k
unfolding word_sum
segment_sum m k = ap (word_sum m 20) long ∙ omega arith
  where
    long :
        18 + k
        ≡ suc (
            suc (
              suc (
                suc (
                  suc (
                    suc
                      (suc (suc (suc (suc (suc (suc (suc (suc (suc (suc (suc (suc k)))))))))))))))))
    long = omega arith

module _ (m : Mem) (b : IsBytes m) (long : (18 ≤ upper_layer_len m) × (upper_layer_len m ≤ 65515))
    (z : (m 36 ≡ 0) × (m 37 ≡ 0)) where
  -- the memory with a TCP checksum
  filled_in : ℕ → Mem
  filled_in v = blit m 36 (bytes16 v)

  rest_len : ℕ
  rest_len = upper_layer_len m - 18

  all_but :
      (m' : Mem)
      → upper_layer_len m' ≡ upper_layer_len m
      → word_sum m' 20 (upper_layer_len m')
        ≡ word_sum m' 20 16 + (m' 36 * 256 + m' 37) + word_sum m' 38 rest_len
  unfolding rest_len
  all_but m' e = ap (word_sum m' 20) (omega arith) ∙ segment_sum m' rest_len

  tcp_sum-filled_in : (v : ℕ) → v < 2 ^ 16 → tcp_sum (filled_in v) ≡ tcp_sum m + v
  unfolding filled_in
  tcp_sum-filled_in v h =
      let after = all_but (filled_in v) refl in
      let before = all_but m refl in
      let rest : word_sum (filled_in v) 38 rest_len ≡ word_sum m 38 rest_len =
        word_sum-agree (filled_in v) m 38 rest_len
          (λ j h. blit_outside m 36 (bytes16 v) j (inr h)) in
      unfold word_sum in omega (arith, after, before, rest)

  tcpchksum_fixed : uip_tcpchksum (filled_in (not16 (uip_tcpchksum m))) ≡ 0xffff
  tcpchksum_fixed =
      tcpchksum-eq (filled_in v)
        (unfold filled_in in blit-IsBytes m 36 (bytes16 v) b (bytes16-AllBytes v small))
      ∙ fixed_sum (tcp_sum m) v (tcp_sum (filled_in v)) (omega arith) (ap not16 (tcpchksum-eq m b))
          (tcp_sum-filled_in v small)
    where
      v : ℕ
      v = not16 (uip_tcpchksum m)

      small : v < 2 ^ 16
      small = rw (tcpchksum-eq m b) (nonzero_range (ones (tcp_sum m)) (ones-le _))

-- The TCP checksum depends on the length field and on what stands from the addresses on.
tcpchksum-agree :
    (m m' : Mem)
    → m 2 ≡ m' 2
    → m 3 ≡ m' 3
    → ((j : ℕ) → 12 ≤ j → m j ≡ m' j)
    → uip_tcpchksum m ≡ uip_tcpchksum m'
unfolding uip_tcpchksum
tcpchksum-agree m m' e f h = ap nonzero (
    chksum-agree _ m m' 20 (upper_layer_len m) (λ j k. h j (omega arith))
    ∙ ap₂ (λ t n. chksum t m' 20 n)
        (chksum-agree _ m m' 12 8 h ∙ ap (λ n. chksum ((n + uip_proto_tcp) % 2 ^ 16) m' 12 8) l) l)
  where
    l : upper_layer_len m ≡ upper_layer_len m'
    l = omega arith

module _ {A : Type 0} (s : Stack A) (b : IsBytes s.buf) where
  ip_header-IsBytes : IsBytes (ip_header s).buf
  ip_header-IsBytes =
      blit-IsBytes _ at_ipchksum (0 ∷ 0 ∷ [])
        (blit-IsBytes _ at_ipid (bytes16 ((s.ipid + 1) % 2 ^ 16))
          (blit-IsBytes _ at_ipoffset (0 ∷ 0 ∷ [])
            (blit-IsBytes s.buf at_vhl (0x45 ∷ 0 ∷ []) b (omega arith)) (omega arith))
          (omega arith))
        (omega arith)

  ip_send_nolen-buf :
      (ip_send_nolen s).buf
      ≡ blit (ip_header s).buf 10 (bytes16 (not16 (uip_ipchksum (ip_header s).buf)))
  unfolding ip_send_nolen send
  ip_send_nolen-buf = refl

  -- the IP checksum of what leaves by `ip_send_nolen`
  ip_send_nolen-verifies : uip_ipchksum (ip_send_nolen s).buf ≡ 0xffff
  ip_send_nolen-verifies =
      ap uip_ipchksum ip_send_nolen-buf
      ∙ ipchksum_fixed (ip_header s).buf ip_header-IsBytes (omega arith) refl refl

  -- `ip_send_nolen` leaves the TCP checksum and all it covers alone.
  ip_send_nolen-tcpchksum : uip_tcpchksum (ip_send_nolen s).buf ≡ uip_tcpchksum s.buf
  ip_send_nolen-tcpchksum =
      ap uip_tcpchksum ip_send_nolen-buf ∙ tcpchksum-agree _ s.buf refl refl (λ j h. ground arith)

module _ {A : Type 0} (s : Stack A) (b : IsBytes s.buf) (long : 38 ≤ s.len)
    (small : s.len < 2 ^ 16) where
  tcp_lengths-IsBytes : IsBytes (tcp_lengths s).buf
  tcp_lengths-IsBytes =
      blit-IsBytes _ at_tcpchksum (0 ∷ 0 ∷ [])
        (blit-IsBytes _ at_urgp (0 ∷ 0 ∷ [])
          (blit-IsBytes _ at_len (bytes16 s.len)
            (blit-IsBytes s.buf at_ttl (uip_ttl ∷ []) b (omega arith)) (omega arith))
          (omega arith))
        (omega arith)

  segment_len : upper_layer_len (tcp_lengths s).buf ≡ s.len - 20
  segment_len = omega arith

  sum_range : not16 (uip_tcpchksum (tcp_lengths s).buf) < 2 ^ 16
  sum_range =
      rw (tcpchksum-eq (tcp_lengths s).buf tcp_lengths-IsBytes)
        (nonzero_range (ones (tcp_sum (tcp_lengths s).buf)) (ones-le _))

  -- A TCP packet of 38 to 65535 bytes that leaves by `tcp_send_noconn`, with a buffer that holds
  -- bytes, verifies: `uip_tcpchksum` and `uip_ipchksum` of the buffer are both 0xffff, the test
  -- that `uip_process` makes of what comes in.
  pub tcp_send_noconn-verifies :
      (uip_tcpchksum (tcp_send_noconn s).buf ≡ 0xffff)
      × (uip_ipchksum (tcp_send_noconn s).buf ≡ 0xffff)
  unfolding tcp_send_noconn
  tcp_send_noconn-verifies = (
    ip_send_nolen-tcpchksum filled filled-IsBytes
        ∙ unfold filled_in in
          tcpchksum_fixed (tcp_lengths s).buf tcp_lengths-IsBytes (omega (arith, segment_len))
            (refl, refl),
    ip_send_nolen-verifies filled filled-IsBytes,
  )
    where
      filled : Stack A
      filled =
          fill at_tcpchksum (bytes16 (not16 (uip_tcpchksum (tcp_lengths s).buf))) (tcp_lengths s)

      filled-IsBytes : IsBytes filled.buf
      filled-IsBytes =
          blit-IsBytes (tcp_lengths s).buf at_tcpchksum
            (bytes16 (not16 (uip_tcpchksum (tcp_lengths s).buf))) tcp_lengths-IsBytes
            (bytes16-AllBytes _ sum_range)
