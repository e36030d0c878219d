-- ===== src/Psock/Sent.antt =====
-- What `psock_send` hands to the stack.
use fx_ip.Base.{
  Bool, Bool-cases, List, Mem, Option, [], ap, ap₂, arith, false, if◌then◌else◌, inl, inr, length,
  length-peek, min, not, peek, refl, some, suc, sym, true, zero, ℕ, ◌%◌, ◌&&◌, ◌+◌, ◌-◌, ◌<◌, ◌==◌,
  ◌^◌, ◌∙◌, ◌∷◌, ◌≡◌, ◌≢◌, ◌≤◌,
}
use fx_ip.Psock.{
  Io, Place, Progress, Psock, at_start, data_acked, ended, in_send, psock_send, send_data,
  psock_send_loop, state_acked, state_data_sent, state_none, uip_send, waiting,
}

-- a socket that waits in `psock_send` with `n` bytes at `p` outstanding
abbrev pub sending : Psock → ℕ → ℕ → Psock
sending s p n = record s { lc = in_send; sendptr = p; sendlen = n; state = state_data_sent }

-- a socket whose bytes, up to `p`, were sent
abbrev pub sent : Psock → ℕ → Psock
sent s p = record s { lc = at_start; sendptr = p; sendlen = 0; state = state_none }

module _ (fuel : ℕ) (at_wait : Bool) (s s1 s2 : Psock) (m : Mem) (io io2 : Io) where
  -- a round of the loop that waits, one that goes on, and the end
  round_waits :
      (a b : Bool)
      → (s.sendlen == 0 && not at_wait) ≡ false
      → data_acked s io ≡ (a, s1)
      → send_data s1 m io ≡ (b, s2, io2)
      → (a && b) ≡ false
      → psock_send_loop (suc fuel) at_wait s m io ≡ some (waiting, record s2 { lc = in_send }, io2)
  unfolding psock_send_loop
  round_waits a b t e f g = rw (t, e, psock_send_loop) (rw (f) (rw g refl))

  round_goes_on :
      (s.sendlen == 0 && not at_wait) ≡ false
      → data_acked s io ≡ (true, s1)
      → send_data s1 m io ≡ (true, s2, io2)
      → psock_send_loop (suc fuel) at_wait s m io ≡ psock_send_loop fuel false s2 m io2
  unfolding psock_send_loop
  round_goes_on t e f = rw (t, e, psock_send_loop) (rw f refl)

round_ends :
    (fuel : ℕ) (s : Psock) (m : Mem) (io : Io)
    → (s.sendlen == 0) ≡ true
    → psock_send_loop (suc fuel) false s m io
      ≡ some (ended, record s { state = state_none; lc = at_start }, io)
unfolding psock_send_loop
round_ends fuel s m io e = rw (e, psock_send_loop) refl

module _ (s : Psock) (p n : ℕ) (m : Mem) (io : Io) where
  acked_lem :
      io.acked ≡ true
      → data_acked (sending s p n) io ≡ (
        true,
        record s {
          lc = in_send;
          sendptr = p + min io.mss n;
          sendlen = n - io.mss;
          state = state_acked;
        },
      )
  unfolding data_acked
  acked_lem e = rw e refl

  not_acked : io.acked ≡ false → data_acked (sending s p n) io ≡ (false, sending s p n)
  unfolding data_acked
  not_acked e = rw e refl

  send_lem :
      (pl : Place) (st : ℕ)
      → st ≢ state_data_sent
      → send_data (record s { lc = pl; sendptr = p; sendlen = n; state = st }) m io ≡ (
        true,
        record s { lc = pl; sendptr = p; sendlen = n; state = state_data_sent },
        uip_send (peek m p (min io.mss n)) io,
      )
  unfolding send_data
  send_lem pl st h = let e : (st == state_data_sent) ≡ false = ground arith in rw e refl

  resend_lem :
      io.rexmit ≡ true
      → send_data (sending s p n) m io
        ≡ (true, sending s p n, uip_send (peek m p (min io.mss n)) io)
  unfolding send_data
  resend_lem e = rw e refl

  no_resend : io.rexmit ≡ false → send_data (sending s p n) m io ≡ (false, sending s p n, io)
  unfolding send_data
  no_resend e = rw e refl

  fresh_lem :
      data_acked (record s { lc = at_start; sendptr = p; sendlen = n; state = state_none }) io
      ≡ (false, record s { lc = at_start; sendptr = p; sendlen = n; state = state_none })
  unfolding data_acked
  fresh_lem = refl

  whole :
      0 < n
      → n ≤ io.mss
      → uip_send (peek m p (min io.mss n)) io ≡ record io { outgoing = peek m p n }
  whole h k =
      ap (λ t. uip_send (peek m p t) io) {x = min io.mss n} {y = suc (n - 1)} (omega arith)
      ∙ ap (λ t. record io { outgoing = peek m p t }) {x = suc (n - 1)} {y = n} (omega arith)

uip_send_kept :
    (bytes : List ℕ) (io : Io) (k : ℕ)
    → io.acked ≡ true
    → io.mss ≡ k
    → length io.outgoing ≤ k
    → length bytes ≤ k
    → ((uip_send bytes io).acked ≡ true)
      × ((uip_send bytes io).mss ≡ k)
      × (length (uip_send bytes io).outgoing ≤ k)
uip_send_kept [] io k a e o l = (a, e, o)
uip_send_kept (x ∷ xs) io k a e o l = (a, e, l)

psock_send_loop_acked :
    (fuel : ℕ) (at_wait : Bool) (s : Psock) (p n : ℕ) (m : Mem) (io : Io) (k : ℕ)
    → (n == 0 && at_wait) ≡ false
    → n < fuel
    → 0 < k
    → io.acked ≡ true
    → io.mss ≡ k
    → length io.outgoing ≤ k
    → (io' : Io) × (psock_send_loop (suc fuel) at_wait (sending s p n) m io
        ≡ some (ended, sent s (p + n), io'))
      × (length io'.outgoing ≤ k)
psock_send_loop_acked zero at_wait s p n m io k w lt pos_k a e o = absurd (omega arith)
psock_send_loop_acked (suc fuel) false s p zero m io k w lt pos_k a e o = (
  io,
  round_ends (suc fuel) (sending s p zero) m io refl
      ∙ ap (λ q. some (ended, sent s q, io)) (omega arith),
  o,
)
psock_send_loop_acked (suc fuel) true s p zero m io k w lt pos_k a e o = absurd (cc)
psock_send_loop_acked (suc fuel) at_wait s p (suc n) m io k w lt pos_k a e o =
    let q : ℕ = p + min io.mss (suc n) in
    let rest : ℕ = suc n - io.mss in
    let bytes : List ℕ = peek m q (min io.mss rest) in
    let kept = uip_send_kept bytes io k a e o (omega (arith, length-peek m q (min io.mss rest))) in
    let (io', ends, small) =
      psock_send_loop_acked fuel false s q rest m (uip_send bytes io) k (ground arith) (omega arith)
        pos_k kept.0 kept.1 kept.2 in
    (
      io',
      round_goes_on (suc fuel) at_wait (sending s p (suc n))
            (record s { lc = in_send; sendptr = q; sendlen = rest; state = state_acked })
            (sending s q rest) m io (uip_send bytes io) (ground arith)
            (acked_lem s p (suc n) m io a)
            (send_lem s q rest m io in_send state_acked (λ z. absurd (omega arith)))
          ∙ ends
          ∙ ap (λ t. some (ended, sent s t, io')) (omega arith),
      small,
    )

-- With a byte at least outstanding and an MSS above 0, a call with an acknowledgement ends
-- psock_send, however much is left: all of it counts as sent, with sendptr behind it, and what is
-- handed to the stack, to which nothing was handed before in this call, is at most one segment.
pub psock_send-acked :
    (s : Psock) (p n : ℕ) (m : Mem) (buf len : ℕ) (io : Io)
    → 0 < n
    → io.acked ≡ true
    → 0 < io.mss
    → io.outgoing ≡ []
    → (io' : Io) × (psock_send (sending s p n) m buf len io ≡ some (ended, sent s (p + n), io'))
      × (length io'.outgoing ≤ io.mss)
unfolding psock_send
psock_send-acked s p n m buf len io some_bytes a pos_mss none_out =
    psock_send_loop_acked (suc n) true s p n m io io.mss (ground arith) (omega arith) pos_mss a refl
      (omega (arith, ap length none_out))

send_starts :
    (s : Psock) (p n : ℕ) (m : Mem) (io : Io)
    → 0 < n
    → n < 2 ^ 16
    → n ≤ io.mss
    → psock_send (record s { lc = at_start }) m p n io
      ≡ some (waiting, sending s p n, record io { outgoing = peek m p n })
unfolding psock_send
send_starts s p n m io some_bytes h k =
    let counted : n % 2 ^ 16 ≡ n = omega arith in
    let not_empty : (n == 0) ≡ false = ground arith in
    rw (not_empty, counted)
      (round_waits (suc n) false
          (record s { lc = at_start; sendptr = p; sendlen = n; state = state_none })
          (record s { lc = at_start; sendptr = p; sendlen = n; state = state_none })
          (record s { lc = at_start; sendptr = p; sendlen = n; state = state_data_sent }) m io
          (uip_send (peek m p (min io.mss n)) io) false true (ground arith) (fresh_lem s p n m io)
          (send_lem s p n m io at_start state_none (λ e. absurd (omega arith))) refl
        ∙ ap (λ o. some (waiting, sending s p n, o)) (whole s p n m io some_bytes k))

send_waits :
    (s : Psock) (p n : ℕ) (m : Mem) (buf len : ℕ) (io io2 : Io) (b : Bool)
    → io.acked ≡ false
    → send_data (sending s p n) m io ≡ (b, sending s p n, io2)
    → psock_send (sending s p n) m buf len io ≡ some (waiting, sending s p n, io2)
unfolding psock_send
send_waits s p n m buf len io io2 b a e =
    round_waits (suc n) true (sending s p n) (sending s p n) (sending s p n) m io io2 false b
      (ground arith) (not_acked s p n m io a) e refl

send_ends :
    (s : Psock) (p n : ℕ) (m : Mem) (buf len : ℕ) (io : Io)
    → 0 < n
    → io.acked ≡ true
    → n ≤ io.mss
    → psock_send (sending s p n) m buf len io ≡ some (ended, sent s (p + n), io)
unfolding psock_send
send_ends s p n m buf len io some_bytes a h =
    round_goes_on (suc n) true (sending s p n)
      (record s { lc = in_send; sendptr = p + n; sendlen = 0; state = state_acked })
      (sending s (p + n) 0) m io io (ground arith)
      (acked_lem s p n m io a
        ∙ ap₂
            (λ q r.
              (true, record s { lc = in_send; sendptr = q; sendlen = r; state = state_acked }))
            (omega arith) (omega arith))
      (send_lem s (p + n) 0 m io in_send state_acked (λ e. absurd (omega arith))
        ∙ ap (λ t. (true, sending s (p + n) 0, uip_send (peek m (p + n) t) io)) {x = min io.mss 0}
            {y = 0} (omega arith))
    ∙ round_ends n (sending s (p + n) 0) m io refl

-- A message of 1 to 65535 bytes that fits one segment is sent whole: the call that starts
-- psock_send hands it to the stack and waits. Of a later call, with any bytes in the memory by
-- then: an acknowledgement ends it, with sendptr behind the message; without one it waits on, and
-- exactly where a retransmission is asked for, it hands to the stack the bytes that stand at
-- sendptr then.
pub psock_send_lem :
    (s : Psock) (p n : ℕ) (m m' : Mem) (buf len : ℕ) (io io' : Io)
    → 0 < n
    → n < 2 ^ 16
    → n ≤ io.mss
    → n ≤ io'.mss
    → (psock_send (record s { lc = at_start }) m p n io
        ≡ some (waiting, sending s p n, record io { outgoing = peek m p n }))
      × (psock_send (sending s p n) m' buf len io' ≡ (
          if io'.acked
          then some (ended, sent s (p + n), io')
          else some (
            waiting,
            sending s p n,
            (if io'.rexmit then record io' { outgoing = peek m' p n } else io'),
          )))
psock_send_lem s p n m m' buf len io io' some_bytes h k l = (
  send_starts s p n m io some_bytes h k,
  elim (Bool-cases io'.acked) [
    | inl a ↦ send_ends s p n m' buf len io' some_bytes a l ∙ sym (ap choice a)
    | inr a ↦ elim (Bool-cases io'.rexmit) [
      | inl r ↦
          send_waits s p n m' buf len io' (record io' { outgoing = peek m' p n }) true a
            (resend_lem s p n m' io' r
              ∙ ap (λ o. (true, sending s p n, o)) (whole s p n m' io' some_bytes l))
          ∙ sym (ap choice a ∙ ap resent r)
      | inr r ↦
          send_waits s p n m' buf len io' io' false a (no_resend s p n m' io' r)
          ∙ sym (ap choice a ∙ ap resent r)
    ]
  ],
)
  where
    resent : Bool → Option (Progress × Psock × Io)
    resent b =
        some (waiting, sending s p n, (if b then record io' { outgoing = peek m' p n } else io'))

    choice : Bool → Option (Progress × Psock × Io)
    choice b = if b then some (ended, sent s (p + n), io') else resent io'.rexmit
