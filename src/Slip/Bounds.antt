-- ===== src/Slip/Bounds.antt =====
-- Where `slipdev_poll` writes, and what becomes of a frame that is too long.
use fx_ip.Base.{
  ℕ, ◌+◌, ◌≤◌, ◌<◌, ◌≡◌, refl, ap, ap₂, ◌∙◌, List, [], ◌∷◌, ◌++◌, ◌==◌, length, arith, Bool-cases,
  inl, inr, Mem, poke, blit, peek, blit_outside, poke_self, peek-blit, length-peek,
}
use fx_ip.Slip.{slip_end, uip_bufsize, SlipDev, store, accept, slipdev_poll, Polled, slipdev_init}
use fx_ip.Slip.Frame.{
  escape_all, store_all, last_of, poll-escape_all, store_all-fits, poll-end, last_byte,
}
use fx_ip.Slip.RoundTrip.{IsIdle}

-- the invariant of `len`: the next byte goes to an index of at most UIP_BUFSIZE
pub record IsBounded (s : SlipDev) : Type 0 where
  pub within : s.len ≤ uip_bufsize

pub slipdev_init-IsBounded : (s : SlipDev) → IsBounded (slipdev_init s)
unfolding slipdev_init
slipdev_init-IsBounded s = omega arith

accept-IsBounded : {s : SlipDev} (c : ℕ) → IsBounded s → IsBounded (accept s c)
unfolding accept
accept-IsBounded c h = ground arith

accept_outside :
    (s : SlipDev) (c i : ℕ) → IsBounded s → uip_bufsize < i → (accept s c).slip_buf i ≡ s.slip_buf i
unfolding accept
accept_outside s c i h k = ground arith

poll_bounds :
    (line : List ℕ) (s : SlipDev) (b : Mem) (i : ℕ)
    → IsBounded s
    → let r = slipdev_poll line s b in
      IsBounded r.dev
      × (r.ret ≤ uip_bufsize)
      × (uip_bufsize < i → r.dev.slip_buf i ≡ s.slip_buf i)
      × (uip_bufsize ≤ i → r.uip_buf i ≡ b i)
unfolding slipdev_poll
poll_bounds [] s b i h = (h, omega arith, λ _. refl, λ _. refl)
poll_bounds (c ∷ cs) s b i h = elim (Bool-cases (c == slip_end)) [
  | inl e ↦ rw e (
    omega arith,
    h.within,
    λ _. refl,
    λ k.
        blit_outside b 0 (peek s.slip_buf 0 s.len) i
          (inr (omega (arith, length-peek s.slip_buf 0 s.len))),
  )
  | inr e ↦
      let ih = poll_bounds cs (accept s c) b i (accept-IsBounded c h) in
      rw e (ih.0, ih.1, (λ k. ih.2 k ∙ accept_outside s c i h k), ih.3)
]

-- From a bounded state, a call of `slipdev_poll` on any input leaves the state bounded, returns at
-- most UIP_BUFSIZE, and changes no byte of `slip_buf` above index UIP_BUFSIZE and no byte of
-- `uip_buf` from index UIP_BUFSIZE on.
pub poll-IsBounded :
    (line : List ℕ) (s : SlipDev) (b : Mem)
    → IsBounded s
    → let r = slipdev_poll line s b in
      IsBounded r.dev
      × (r.ret ≤ uip_bufsize)
      × ((i : ℕ) → r.dev.slip_buf (uip_bufsize + 1 + i) ≡ s.slip_buf (uip_bufsize + 1 + i))
      × ((i : ℕ) → r.uip_buf (uip_bufsize + i) ≡ b (uip_bufsize + i))
poll-IsBounded line s b h = (
  (poll_bounds line s b 0 h).0,
  (poll_bounds line s b 0 h).1,
  λ i. (poll_bounds line s b (uip_bufsize + 1 + i) h).2 (omega arith),
  λ i. (poll_bounds line s b (uip_bufsize + i) h).3 (omega arith),
)

store_all-append :
    (s : SlipDev) (xs ys : List ℕ) → store_all s (xs ++ ys) ≡ store_all (store_all s xs) ys
unfolding store_all
store_all-append s [] ys = refl
store_all-append s (x ∷ xs) ys = store_all-append (store (record s { lastc = last_byte x }) x) xs ys

-- the device when the buffer is full and one more byte arrives
store_over :
    (s : SlipDev) (x : ℕ)
    → s.len ≡ uip_bufsize
    → store_all s (x ∷ [])
      ≡ record s { slip_buf = poke s.slip_buf uip_bufsize x; len = 0; lastc = last_byte x }
unfolding store_all store
store_over s x e = ap₂ (full s x) e length_is
  where
    full : SlipDev → ℕ → ℕ → ℕ → SlipDev
    full s x i n = record s { slip_buf = poke s.slip_buf i x; len = n; lastc = last_byte x }

    length_is : (store (record s { lastc = last_byte x }) x).len ≡ 0
    length_is = ground arith

-- A frame of UIP_BUFSIZE + 1 bytes or more is not dropped: its byte number UIP_BUFSIZE + 1 is
-- written to `slip_buf[UIP_BUFSIZE]`, and the bytes that follow that one, at most UIP_BUFSIZE of
-- them, are returned as the packet, to a receiver that starts idle.
pub poll_oversize :
    (p : List ℕ) (x : ℕ) (q rest : List ℕ) (s : SlipDev) (b : Mem)
    → IsIdle s
    → length p ≡ uip_bufsize
    → length q ≤ uip_bufsize
    → let r = slipdev_poll (escape_all (p ++ x ∷ q) ++ slip_end ∷ rest) s b in
      (r.dev.slip_buf uip_bufsize ≡ x)
      × (r.ret ≡ length q)
      × (peek r.uip_buf 0 (length q) ≡ q)
      × (r.rest ≡ rest)
poll_oversize p x q rest s b i hp hq = rw end (
  blit_outside (poke full.slip_buf uip_bufsize x) 0 q uip_bufsize (inr (omega arith))
      ∙ poke_self full.slip_buf uip_bufsize x,
  refl,
  ap (λ (m : Mem). peek m 0 (length q)) (ap (blit b 0) (peek-blit over.slip_buf 0 q))
      ∙ peek-blit b 0 q,
  refl,
)
  where
    full : SlipDev
    full = record s {
      slip_buf = blit s.slip_buf s.len p;
      len = s.len + length p;
      lastc = last_of s.lastc p;
    }

    over : SlipDev
    over = record full { slip_buf = poke full.slip_buf uip_bufsize x; len = 0; lastc = last_byte x }

    d : SlipDev
    d = record over {
      slip_buf = blit over.slip_buf 0 q;
      len = 0 + length q;
      lastc = last_of over.lastc q;
    }

    stored : store_all s (p ++ x ∷ q) ≡ d
    stored =
        store_all-append s p (x ∷ q)
        ∙ ap (λ t. store_all t (x ∷ q)) (store_all-fits s p (omega (arith, i.empty)))
        ∙ store_all-append full (x ∷ []) q
        ∙ ap (λ t. store_all t q) (store_over full x (omega (arith, i.empty)))
        ∙ store_all-fits over q (omega arith)

    end : slipdev_poll (escape_all (p ++ x ∷ q) ++ slip_end ∷ rest) s b ≡ record {
      rest = rest;
      dev = record d { lastc = slip_end; tmplen = length q; len = 0 };
      uip_buf = blit b 0 (peek d.slip_buf 0 (length q));
      ret = length q;
    }
    end =
        poll-escape_all (p ++ x ∷ q) (slip_end ∷ rest) s b i.unescaped
        ∙ ap (λ t. slipdev_poll (slip_end ∷ rest) t b) stored
        ∙ poll-end rest d b
        ∙ ap
            (λ n.
              let r : Polled = record {
                rest = rest;
                dev = record d { lastc = slip_end; tmplen = n; len = 0 };
                uip_buf = blit b 0 (peek d.slip_buf 0 n);
                ret = n;
              } in
              r)
            (omega arith)
