-- ===== src/Slip/Frame.antt =====
-- One escaped frame under the loop of `slipdev_poll`.
use fx_ip.Base.{
  ℕ, zero, suc, ◌+◌, ◌≤◌, ◌≡◌, ◌≢◌, refl, ap, ◌∙◌, List, [], ◌∷◌, ◌++◌, ◌==◌, if◌then◌else◌, length,
  arith, append_assoc, Bool-cases, inl, inr, Mem, poke, blit, peek,
}
use fx_ip.Slip.{
  slip_end, slip_esc, slip_esc_end, slip_esc_esc, uip_bufsize, escape, send_loop, SlipDev, store,
  slipdev_poll,
}

abbrev pub escape_all : List ℕ → List ℕ
escape_all [] = []
escape_all (c ∷ cs) = escape c ++ escape_all cs

pub send_loop-peek : (m : Mem) (i n : ℕ) → send_loop m i n ≡ escape_all (peek m i n)
unfolding send_loop
send_loop-peek m i zero = refl
send_loop-peek m i (suc n) = ap (λ q. escape (m i) ++ q) (send_loop-peek m (i + 1) n)

-- the byte that stands in `lastc` once the escape of `c` has been read
pub last_byte : ℕ → ℕ
last_byte c = if c == slip_end then slip_esc_end else if c == slip_esc then slip_esc_esc else c

-- The escape of a byte stores that byte.
poll-escape :
    (c : ℕ) (q : List ℕ) (s : SlipDev) (b : Mem)
    → s.lastc ≢ slip_esc
    → (slipdev_poll (escape c ++ q) s b
        ≡ slipdev_poll q (store (record s { lastc = last_byte c }) c) b)
      × (last_byte c ≢ slip_esc)
unfolding escape slipdev_poll last_byte
poll-escape c q s b h = elim (Bool-cases (c == slip_end)) [
  | inl e ↦ (ground arith, ground arith)
  | inr e ↦ elim (Bool-cases (c == slip_esc)) [
    | inl f ↦ (ground arith, ground arith)
    | inr f ↦ (ground arith, ground arith)
  ]
]

-- the device once the bytes `p` of a frame have been stored
unfoldable pub store_all : SlipDev → List ℕ → SlipDev
store_all s [] = s
store_all s (c ∷ cs) = store_all (store (record s { lastc = last_byte c }) c) cs

pub lastc-store_all :
    (s : SlipDev) (p : List ℕ) → s.lastc ≢ slip_esc → (store_all s p).lastc ≢ slip_esc
unfolding store_all store
lastc-store_all s [] h = h
lastc-store_all s (c ∷ cs) h =
    lastc-store_all (store (record s { lastc = last_byte c }) c) cs
      (unfold last_byte in ground arith)

-- Reading the escapes of `p` stores the bytes of `p`, whatever follows them.
pub poll-escape_all :
    (p q : List ℕ) (s : SlipDev) (b : Mem)
    → s.lastc ≢ slip_esc
    → slipdev_poll (escape_all p ++ q) s b ≡ slipdev_poll q (store_all s p) b
unfolding store_all
poll-escape_all [] q s b h = refl
poll-escape_all (c ∷ cs) q s b h =
    ap (λ t. slipdev_poll t s b) (append_assoc (escape c) (escape_all cs) q)
    ∙ (poll-escape c (escape_all cs ++ q) s b h).0
    ∙ poll-escape_all cs q (store (record s { lastc = last_byte c }) c) b (kept c)
  where
    kept : (c : ℕ) → (store (record s { lastc = last_byte c }) c).lastc ≢ slip_esc
    kept c = unfold store in (poll-escape c [] s b h).1

-- the byte in `lastc` after the escapes of `p`
unfoldable pub last_of : ℕ → List ℕ → ℕ
last_of l [] = l
last_of l (c ∷ cs) = last_of (last_byte c) cs

abbrev loaded : SlipDev → Mem → ℕ → ℕ → SlipDev
loaded s m n l = record s { slip_buf = m; len = n; lastc = l }

-- Bytes that fit the buffer are stored one behind the other.
pub store_all-fits :
    (s : SlipDev) (p : List ℕ)
    → s.len + length p ≤ uip_bufsize
    → store_all s p ≡ record s {
      slip_buf = blit s.slip_buf s.len p;
      len = s.len + length p;
      lastc = last_of s.lastc p;
    }
unfolding store_all last_of store
store_all-fits s [] h = ap (λ n. loaded s s.slip_buf n s.lastc) {x = s.len} (omega arith)
store_all-fits s (c ∷ cs) h =
    store_all-fits (store (record s { lastc = last_byte c }) c) cs (omega (arith, next))
    ∙ ap
        (λ n.
          loaded s (blit (poke s.slip_buf s.len c) n cs) (n + length cs) (last_of (last_byte c) cs))
        next
    ∙ ap (λ n. loaded s (blit s.slip_buf s.len (c ∷ cs)) n (last_of (last_byte c) cs)) (omega arith)
  where
    next : (store (record s { lastc = last_byte c }) c).len ≡ s.len + 1
    next = ground arith

-- At the closing END the stored bytes are the packet.
pub poll-end :
    (q : List ℕ) (s : SlipDev) (b : Mem)
    → slipdev_poll (slip_end ∷ q) s b ≡ record {
      rest = q;
      dev = record s { lastc = slip_end; tmplen = s.len; len = 0 };
      uip_buf = blit b 0 (peek s.slip_buf 0 s.len);
      ret = s.len;
    }
unfolding slipdev_poll
poll-end q s b = refl
