-- ===== src/Psock/Reading.antt =====
-- `psock_readto` over the packets in which a line comes.
use fx_ip.Base.{
  Bool, List, Option, [], ap, append_assoc, arith, false, if◌then◌else◌, leb, length, length-append,
  ltb, none, refl, some, suc, sym, true, ℕ, ◌%◌, ◌++◌, ◌+◌, ◌-◌, ◌/◌, ◌<◌, ◌==◌, ◌^◌, ◌||◌, ◌∙◌,
  ◌∷◌, ◌≡◌, ◌≢◌, ◌≤◌,
}
use fx_ip.Psock.{
  Buf, Io, Place, Progress, Psock, at_start, buf_found, buf_full, ended, exited, in_readto,
  is_empty, psock_datalen, psock_newdata, psock_readto, read_end, read_loop, state_blocked_newdata,
  state_read, takes_to, waiting,
}
use fx_ip.Psock.Line.{
  Lacks, buf_bufto-Lacks, buf_bufto_lem, copied, put_bytes, put_bytes-append, put_bytes-blit,
}

-- a socket with nothing left to read
abbrev pub sock : Place → Psock → Buf → ℕ → Psock
sock place s b st = record s { lc = place; read = []; buf = b; state = st }

takes_to-Lacks :
    (c : ℕ) (b : Buf) (line : List ℕ)
    → Lacks c line
    → takes_to c b line ≡ (false, put_bytes b line, [])
takes_to-Lacks c b line h =
    ap (λ (r : ℕ × Buf × List ℕ). ((r.0 / buf_found) % 2 == 1, r.1, r.2))
      (buf_bufto-Lacks c b line h)
    ∙ ap (λ t. (t, put_bytes b line, [])) (not_found (leb (length line) b.left))
  where
    not_found : (t : Bool) → (((if t then 0 else buf_full) / buf_found) % 2 == 1) ≡ false
    not_found true = refl
    not_found false = refl

takes_to_lem :
    (c : ℕ) (b : Buf) (line later : List ℕ)
    → Lacks c line
    → takes_to c b (line ++ (c ∷ later)) ≡ (true, put_bytes b (line ++ (c ∷ [])), later)
takes_to_lem c b line later h =
    ap (λ (r : ℕ × Buf × List ℕ). ((r.0 / buf_found) % 2 == 1, r.1, r.2))
      (buf_bufto_lem c b line later h)
    ∙ ap (λ t. (t, put_bytes b (line ++ (c ∷ [])), later)) (found (ltb (length line) b.left))
  where
    found :
        (t : Bool) → (((if t then buf_found else buf_found + buf_full) / buf_found) % 2 == 1) ≡ true
    found true = refl
    found false = refl

module _ (take_in : Buf → List ℕ → Bool × Buf × List ℕ) (place : Place) (at_wait : Bool)
    (s s1 : Psock) (io : Io) (asks : at_wait || is_empty s.read ≡ true) (fuel : ℕ) where
  -- a round that waits
  round_waits :
      psock_newdata s io ≡ (false, s1)
      → read_loop (suc fuel) take_in place at_wait s io ≡ some (waiting, record s1 { lc = place })
  unfolding read_loop
  round_waits e = rw (asks, e, read_loop) refl

  -- a round that takes the packet in
  round_takes :
      (finished : Bool) (b' : Buf) (rest : List ℕ)
      → psock_newdata s io ≡ (true, s1)
      → take_in s1.buf io.appdata ≡ (finished, b', rest)
      → read_loop (suc fuel) take_in place at_wait s io ≡ (
          let s2 = record s1 { state = state_read; read = rest; buf = b' } in
          if finished then some (read_end s2) else read_loop fuel take_in place false s2 io)
  unfolding read_loop
  round_takes finished b' rest e f = rw (asks, e, read_loop) (rw f refl)

module _ (c : ℕ) (pl : Place) (s : Psock) (b : Buf) (st : ℕ) (io : Io) (idle : st ≢ state_read)
    (new : io.newdata ≡ true) where
  ready : psock_newdata (sock pl s b st) io ≡ (true, sock pl s b st)
  unfolding psock_newdata
  ready =
      let e : (st == state_read) ≡ false = ground arith in rw e (ap (λ t. (t, sock pl s b st)) new)

  consumed :
      (b' : Buf)
      → psock_newdata (sock pl s b' state_read) io ≡ (false, sock pl s b' state_blocked_newdata)
  unfolding psock_newdata
  consumed b' = refl

  loop_more :
      (at_wait : Bool) (fuel : ℕ) (b' : Buf)
      → takes_to c b io.appdata ≡ (false, b', [])
      → read_loop (suc (suc fuel)) (takes_to c) in_readto at_wait (sock pl s b st) io
        ≡ some (waiting, sock in_readto s b' state_blocked_newdata)
  loop_more at_wait fuel b' e =
      round_takes (takes_to c) in_readto at_wait (sock pl s b st) (sock pl s b st) io (ground arith)
        (suc fuel) false b' [] ready e
      ∙ round_waits (takes_to c) in_readto false (sock pl s b' state_read)
          (sock pl s b' state_blocked_newdata) io refl fuel (consumed b')

  loop_done :
      (at_wait : Bool) (fuel : ℕ) (b' : Buf) (rest : List ℕ)
      → takes_to c b io.appdata ≡ (true, b', rest)
      → read_loop (suc fuel) (takes_to c) in_readto at_wait (sock pl s b st) io
        ≡ some (read_end (record s { lc = pl; read = rest; buf = b'; state = state_read }))
  loop_done at_wait fuel b' rest e =
      round_takes (takes_to c) in_readto at_wait (sock pl s b st) (sock pl s b st) io (ground arith)
        fuel true b' rest ready e

-- The application calls `psock_readto` in every call that it gets from the stack, until it ends.
pub calls : ℕ → Psock → List Io → Option (Progress × Psock)
calls c s [] = some (waiting, s)
calls c s (io ∷ later) = elim (psock_readto s c io) [
  | none ↦ none
  | some (waiting, s') ↦ calls c s' later
  | some (exited, s') ↦ some (exited, s')
  | some (ended, s') ↦ some (ended, s')
]

calls_waits :
    (c : ℕ) (s s' : Psock) (io : Io) (later : List Io)
    → psock_readto s c io ≡ some (waiting, s')
    → calls c s (io ∷ later) ≡ calls c s' later
unfolding calls
calls_waits c s s' io later e = rw (e, calls) refl

calls_ends :
    (c : ℕ) (s s' : Psock) (io : Io) (later : List Io)
    → psock_readto s c io ≡ some (ended, s')
    → calls c s (io ∷ later) ≡ some (ended, s')
unfolding calls
calls_ends c s s' io later e = rw (e, calls) refl

readto_goes_on :
    (c : ℕ) (s : Psock) (b : Buf) (st : ℕ) (io : Io)
    → psock_readto (sock in_readto s b st) c io
      ≡ read_loop 3 (takes_to c) in_readto true (sock in_readto s b st) io
unfolding psock_readto
readto_goes_on c s b st io = refl

readto_starts :
    (c : ℕ) (s : Psock) (b : Buf) (st : ℕ) (io : Io)
    → s.bufsize < 2 ^ 16
    → psock_readto (sock at_start s b st) c io
      ≡ read_loop 3
          (takes_to c)
          in_readto
          false
          (sock at_start s (record b { ptr = s.bufptr; left = s.bufsize }) st)
          io
unfolding psock_readto
readto_starts c s b st io h =
    ap
      (λ n.
        read_loop 3 (takes_to c) in_readto false
          (sock at_start s (record b { ptr = s.bufptr; left = n }) st) io)
      {y = s.bufsize} (omega arith)

-- A call that comes back in the same packet, which is used up, waits.
pub psock_readto_blocks :
    (c : ℕ) (s : Psock) (b : Buf) (io : Io)
    → s.bufsize < 2 ^ 16
    → psock_readto (sock at_start s b state_read) c io
      ≡ some (
        waiting,
        sock in_readto s (record b { ptr = s.bufptr; left = s.bufsize }) state_blocked_newdata,
      )
unfolding psock_newdata
psock_readto_blocks c s b io h =
    readto_starts c s b state_read io h
    ∙ round_waits (takes_to c) in_readto false
        (sock at_start s (record b { ptr = s.bufptr; left = s.bufsize }) state_read)
        (sock at_start s (record b { ptr = s.bufptr; left = s.bufsize }) state_blocked_newdata) io
        refl 2 refl

-- packets without the marker, and their bytes
abbrev pub NoMarker : ℕ → List Io → Type 0
NoMarker c [] = Unit {0}
NoMarker c (io ∷ later) = (io.newdata ≡ true) × Lacks c io.appdata × NoMarker c later

abbrev pub bytes_of : List Io → List ℕ
bytes_of [] = []
bytes_of (io ∷ later) = io.appdata ++ bytes_of later

module _ (c : ℕ) (s : Psock) (io : Io) (line later : List ℕ) (new : io.newdata ≡ true)
    (arrives : io.appdata ≡ line ++ (c ∷ later)) (lacks : Lacks c line) (sized : s.bufsize < 2 ^ 16)
    (not_empty : 0 < s.bufsize) where
  -- the socket when the line is complete
  abbrev pub complete : Buf → Psock
  complete b = record s { lc = at_start; read = later; buf = b; state = state_read }

  ends :
      (pl : Place) (b : Buf) (st fuel : ℕ) (at_wait : Bool)
      → st ≢ state_read
      → b.left ≤ s.bufsize
      → read_loop (suc fuel) (takes_to c) in_readto at_wait (sock pl s b st) io
        ≡ some (ended, complete (put_bytes b (line ++ (c ∷ []))))
  unfolding psock_datalen
  ends pl b st fuel at_wait idle small =
      loop_done c pl s b st io idle new at_wait fuel (put_bytes b (line ++ (c ∷ []))) later
        (ap (takes_to c b) arrives ∙ takes_to_lem c b line later lacks)
      ∙ (let left : (put_bytes b (line ++ (c ∷ []))).left ≡ b.left - length (line ++ (c ∷ [])) =
            ap (λ z. z.left) (put_bytes-blit b (line ++ (c ∷ []))) in
          let some_data : 0 < length (line ++ (c ∷ [])) =
            omega (arith, length-append {0} line (c ∷ [])) in
          let e : (((s.bufsize + 2 ^ 16 - (put_bytes b (line ++ (c ∷ []))).left) % 2 ^ 16) == 0)
              ≡ false =
            ground arith in
          rw e refl)

  -- the call that has waited for this packet
  pub psock_readto_ends :
      (b : Buf) (st : ℕ)
      → st ≢ state_read
      → b.left ≤ s.bufsize
      → psock_readto (sock in_readto s b st) c io
        ≡ some (ended, complete (put_bytes b (line ++ (c ∷ []))))
  psock_readto_ends b st idle small =
      readto_goes_on c s b st io ∙ ends in_readto b st 2 true idle small

  calls-line :
      (packets : List Io) (b : Buf) (st : ℕ)
      → st ≢ state_read
      → b.left ≤ s.bufsize
      → NoMarker c packets
      → calls c (sock in_readto s b st) (packets ++ (io ∷ []))
        ≡ some (ended, complete (put_bytes b (bytes_of packets ++ (line ++ (c ∷ [])))))
  calls-line [] b st idle small h =
      calls_ends c (sock in_readto s b st) (complete (put_bytes b (line ++ (c ∷ [])))) io []
        (psock_readto_ends b st idle small)
  calls-line (p ∷ ps) b st idle small (n, l, h) =
      calls_waits c (sock in_readto s b st)
        (sock in_readto s (put_bytes b p.appdata) state_blocked_newdata) p (ps ++ (io ∷ []))
        (readto_goes_on c s b st p
          ∙ loop_more c in_readto s b st p idle n true 1 (put_bytes b p.appdata)
              (takes_to-Lacks c b p.appdata l))
      ∙ calls-line ps (put_bytes b p.appdata) state_blocked_newdata (λ e. absurd (omega arith))
          (omega (arith, ap (λ z. z.left) (put_bytes-blit b p.appdata))) h
      ∙ ap (λ z. some (ended, complete z))
          (put_bytes-append b p.appdata (bytes_of ps ++ (line ++ (c ∷ [])))
            ∙ ap (put_bytes b) (sym (append_assoc p.appdata (bytes_of ps) (line ++ (c ∷ [])))))

  abbrev fresh : Buf → Buf
  fresh b = record b { ptr = s.bufptr; left = s.bufsize }

  -- However the packets cut it, a line reaches the reader whole: a socket that starts psock_readto
  -- with nothing left to read and a state other than STATE_READ, for a buffer of 1 to 65535 bytes,
  -- waits while packets of new data come without the marker, and ends in the call whose packet
  -- holds it; its buffer then has the bytes up to the first marker, as far as they fit, and the
  -- bytes behind it are what is left to read.
  pub psock_readto-line :
      (packets : List Io) (b : Buf) (st : ℕ)
      → st ≢ state_read
      → NoMarker c packets
      → calls c (sock at_start s b st) (packets ++ (io ∷ []))
        ≡ some (
          ended,
          complete (
              copied
                (record b { ptr = s.bufptr; left = s.bufsize })
                s.bufsize
                (bytes_of packets ++ (line ++ (c ∷ [])))),
        )
  psock_readto-line [] b st idle h =
      calls_ends c (sock at_start s b st) (complete (put_bytes (fresh b) (line ++ (c ∷ [])))) io []
        (readto_starts c s b st io sized ∙ ends at_start (fresh b) st 2 false idle (omega arith))
      ∙ ap (λ z. some (ended, complete z)) (put_bytes-blit (fresh b) (line ++ (c ∷ [])))
  psock_readto-line (p ∷ ps) b st idle (n, l, h) =
      calls_waits c (sock at_start s b st)
        (sock in_readto s (put_bytes (fresh b) p.appdata) state_blocked_newdata) p (ps ++ (io ∷ []))
        (readto_starts c s b st p sized
          ∙ loop_more c at_start s (fresh b) st p idle n false 1 (put_bytes (fresh b) p.appdata)
              (takes_to-Lacks c (fresh b) p.appdata l))
      ∙ calls-line ps (put_bytes (fresh b) p.appdata) state_blocked_newdata
          (λ e. absurd (omega arith))
          (omega (arith, ap (λ z. z.left) (put_bytes-blit (fresh b) p.appdata))) h
      ∙ ap (λ z. some (ended, complete z))
          (put_bytes-append (fresh b) p.appdata (bytes_of ps ++ (line ++ (c ∷ [])))
            ∙ ap (put_bytes (fresh b))
                (sym (append_assoc p.appdata (bytes_of ps) (line ++ (c ∷ []))))
            ∙ put_bytes-blit (fresh b) (bytes_of (p ∷ ps) ++ (line ++ (c ∷ []))))
