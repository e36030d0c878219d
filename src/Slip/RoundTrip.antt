-- ===== src/Slip/RoundTrip.antt =====
-- What `slipdev_send` writes, `slipdev_poll` reads back.
use fx_ip.Base.{
  ℕ, zero, suc, ◌+◌, ◌≤◌, ◌<◌, ◌≡◌, ◌≢◌, refl, sym, ap, ap₂, ◌∙◌, List, [], ◌∷◌, ◌++◌, ◌==◌,
  if◌then◌else◌, length, arith, append_assoc, Bool-cases, inl, inr, Mem, blit, peek, peek-blit,
  length-peek,
}
use fx_ip.Slip.{
  slip_end, slip_esc, uip_bufsize, send_loop, slipdev_send, SlipDev, accept, slipdev_poll, Polled,
}
use fx_ip.Slip.Frame.{
  escape_all, send_loop-peek, last_of, poll-escape_all, store_all-fits, poll-end,
}

-- Nothing of a frame has been read, and the next byte is not taken as escaped.
pub record IsIdle (s : SlipDev) : Type 0 where
  pub empty : s.len ≡ 0
  pub unescaped : s.lastc ≢ slip_esc

record Delivers (r : Polled) (p q : List ℕ) : Type 0 where
  rest_is : r.rest ≡ q
  ret_is : r.ret ≡ length p
  packet_is : peek r.uip_buf 0 (length p) ≡ p
  idle : IsIdle r.dev

poll-frame :
    (p q : List ℕ) (s : SlipDev) (b : Mem)
    → IsIdle s
    → length p ≤ uip_bufsize
    → Delivers (slipdev_poll (escape_all p ++ slip_end ∷ q) s b) p q
poll-frame p q s b i h = rw end (record {
  rest_is = refl;
  ret_is = omega (arith, i.empty);
  packet_is = ap (λ (m : Mem). peek m 0 (length p)) (ap (blit b 0) bytes) ∙ peek-blit b 0 p;
  idle = record { empty = refl; unescaped = λ e. absurd (omega arith) };
})
  where
    d : SlipDev
    d = record s {
      slip_buf = blit s.slip_buf s.len p;
      len = s.len + length p;
      lastc = last_of s.lastc p;
    }

    end : slipdev_poll (escape_all p ++ slip_end ∷ q) s b ≡ record {
      rest = q;
      dev = record d { lastc = slip_end; tmplen = d.len; len = 0 };
      uip_buf = blit b 0 (peek d.slip_buf 0 d.len);
      ret = d.len;
    }
    end =
        poll-escape_all p (slip_end ∷ q) s b i.unescaped
        ∙ ap (λ t. slipdev_poll (slip_end ∷ q) t b) (store_all-fits s p (omega (arith, i.empty)))
        ∙ poll-end q d b

    bytes : peek d.slip_buf 0 d.len ≡ p
    bytes =
        ap₂ (λ n k. peek (blit s.slip_buf n p) 0 (k + length p)) i.empty i.empty
        ∙ ap (peek (blit s.slip_buf 0 p) 0) {y = length p} (omega arith)
        ∙ peek-blit s.slip_buf 0 p

-- the second call of `slipdev_poll` on a line
abbrev pub poll_again : Polled → Polled
poll_again r = slipdev_poll r.rest r.dev r.uip_buf

sent_line :
    (m : Mem) (n : ℕ) (q : List ℕ)
    → slipdev_send m n ++ q ≡ slip_end ∷ (escape_all (peek m 0 n) ++ slip_end ∷ q)
unfolding slipdev_send
sent_line m n q = ap (◌∷◌ slip_end) (
    append_assoc (send_loop m 0 n) (slip_end ∷ []) q
    ∙ ap (λ t. t ++ slip_end ∷ q) (send_loop-peek m 0 n))

-- the frame that `slipdev_send` writes, under an idle receiver
sent-Delivers :
    (m : Mem) (n : ℕ) (q : List ℕ) (s : SlipDev) (b : Mem)
    → IsIdle s
    → n ≤ uip_bufsize
    → ((slipdev_poll (slipdev_send m n ++ q) s b).ret ≡ 0)
      × Delivers (poll_again (slipdev_poll (slipdev_send m n ++ q) s b)) (peek m 0 n) q
sent-Delivers m n q s b i h =
    rw (sent_line m n q, poll-end (escape_all (peek m 0 n) ++ slip_end ∷ q) s b)
      (
        i.empty,
        poll-frame (peek m 0 n) q (record s { lastc = slip_end; tmplen = s.len; len = 0 })
            (blit b 0 (peek s.slip_buf 0 s.len))
            (record { empty = refl; unescaped = λ e. absurd (omega arith) })
            (omega (arith, length-peek m 0 n)),
      )

-- A packet of at most UIP_BUFSIZE bytes that `slipdev_send` writes is read by an idle receiver:
-- the first call of `slipdev_poll` ends at the opening END with result 0, and the second returns
-- the packet's length, has put its bytes at the start of `uip_buf`, has left what follows the
-- frame on the line, and leaves the receiver idle.
pub poll-send :
    (m : Mem) (n : ℕ) (q : List ℕ) (s : SlipDev) (b : Mem)
    → IsIdle s
    → n ≤ uip_bufsize
    → let first = slipdev_poll (slipdev_send m n ++ q) s b in
      let second = poll_again first in
      (first.ret ≡ 0)
      × (second.ret ≡ n)
      × (peek second.uip_buf 0 n ≡ peek m 0 n)
      × (second.rest ≡ q)
      × IsIdle second.dev
poll-send m n q s b i h =
    let (opening, d) = sent-Delivers m n q s b i h in
    (
      opening,
      d.ret_is ∙ length-peek m 0 n,
      ap (peek (poll_again (slipdev_poll (slipdev_send m n ++ q) s b)).uip_buf 0)
            (sym (length-peek m 0 n))
          ∙ d.packet_is,
      d.rest_is,
      d.idle,
    )

-- The packets of `calls` calls of `slipdev_poll`: those with a result above 0, as `network_poll`
-- takes them.
pub receive : ℕ → List ℕ → SlipDev → Mem → List (List ℕ)
receive zero line s b = []
receive (suc calls) line s b =
    let r = slipdev_poll line s b in
    let later = receive calls r.rest r.dev r.uip_buf in
    if r.ret == 0 then later else peek r.uip_buf 0 r.ret ∷ later

-- the frames of several packets, each sent from its own contents of `uip_buf`
pub send_all : List (Mem × ℕ) → List ℕ
send_all [] = []
send_all ((m, n) ∷ ps) = slipdev_send m n ++ send_all ps

abbrev pub AllFit : List (Mem × ℕ) → Type 0
AllFit [] = Unit {0}
AllFit ((m, n) ∷ ps) = (0 < n) × (n ≤ uip_bufsize) × AllFit ps

abbrev pub packets : List (Mem × ℕ) → List (List ℕ)
packets [] = []
packets ((m, n) ∷ ps) = peek m 0 n ∷ packets ps

abbrev pub calls_for : List (Mem × ℕ) → ℕ
calls_for [] = 0
calls_for (p ∷ ps) = suc (suc (calls_for ps))

receive-silent : (calls : ℕ) (s : SlipDev) (b : Mem) → receive calls [] s b ≡ []
unfolding receive slipdev_poll
receive-silent zero s b = refl
receive-silent (suc calls) s b = receive-silent calls s b

module _ (calls : ℕ) (line : List ℕ) (s : SlipDev) (b : Mem) where
  receive-none :
      (slipdev_poll line s b).ret ≡ 0
      → receive (suc calls) line s b
        ≡ receive calls
            (slipdev_poll line s b).rest
            (slipdev_poll line s b).dev
            (slipdev_poll line s b).uip_buf
  unfolding receive
  receive-none e = ground arith

  receive-some :
      0 < (slipdev_poll line s b).ret
      → receive (suc calls) line s b
        ≡ peek (slipdev_poll line s b).uip_buf 0 (slipdev_poll line s b).ret
          ∷ receive calls
              (slipdev_poll line s b).rest
              (slipdev_poll line s b).dev
              (slipdev_poll line s b).uip_buf
  unfolding receive
  receive-some e = ground arith

-- Two calls of `slipdev_poll` for each packet, or more, receive exactly the packets that
-- `slipdev_send` wrote, in order, for packets that are not empty and fit the buffer and a receiver
-- that starts idle.
pub receive-send_all :
    (ps : List (Mem × ℕ)) (calls : ℕ) (s : SlipDev) (b : Mem)
    → IsIdle s
    → AllFit ps
    → calls_for ps ≤ calls
    → receive calls (send_all ps) s b ≡ packets ps
unfolding send_all
receive-send_all [] calls s b i h k = receive-silent calls s b
receive-send_all ((m, n) ∷ ps) zero s b i h k = absurd (omega arith)
receive-send_all ((m, n) ∷ ps) (suc zero) s b i h k = absurd (omega arith)
receive-send_all ((m, n) ∷ ps) (suc (suc calls)) s b i h k =
    receive-none (suc calls) line s b got.0
    ∙ receive-some calls first.rest first.dev first.uip_buf (omega (arith, got.1, h.0))
    ∙ ap₂ ◌∷◌ (ap (peek second.uip_buf 0) got.1 ∙ got.2) (
        ap (λ l. receive calls l second.dev second.uip_buf) got.3
        ∙ receive-send_all ps calls second.dev second.uip_buf got.4 h.2 (omega arith))
  where
    line : List ℕ
    line = slipdev_send m n ++ send_all ps

    first : Polled
    first = slipdev_poll line s b

    second : Polled
    second = poll_again first

    got :
        (first.ret ≡ 0)
        × (second.ret ≡ n)
        × (peek second.uip_buf 0 n ≡ peek m 0 n)
        × (second.rest ≡ send_all ps)
        × IsIdle second.dev
    got = poll-send m n (send_all ps) s b i h.1

abbrev pub NoEnd : List ℕ → Type 0
NoEnd [] = Unit {0}
NoEnd (c ∷ cs) = (c ≢ slip_end) × NoEnd cs

-- A call of `slipdev_poll` on bytes without an END returns 0, has read all of it and has not
-- touched `uip_buf`; the next call goes on as one call over both parts would.
pub poll-append :
    (xs ys : List ℕ) (s : SlipDev) (b : Mem)
    → NoEnd xs
    → let r = slipdev_poll xs s b in
      (r.ret ≡ 0)
      × (r.rest ≡ [])
      × (r.uip_buf ≡ b)
      × (slipdev_poll (xs ++ ys) s b ≡ slipdev_poll ys r.dev r.uip_buf)
unfolding slipdev_poll
poll-append [] ys s b h = (refl, refl, refl, refl)
poll-append (c ∷ cs) ys s b h = elim (Bool-cases (c == slip_end)) [
  | inl e ↦ absurd (h.0 (ground arith))
  | inr e ↦ rw e (poll-append cs ys (accept s c) b h.1)
]
