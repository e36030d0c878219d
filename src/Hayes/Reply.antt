-- ===== src/Hayes/Reply.antt =====
-- `hayes_read` of src/hayes.c: the echo and the answer of the modem.
use fx_ip.Base.{
  Bool, Bool-cases, List, dec_lt, ltb, ◌&&◌, ◌≤◌, [], Mem, inl, inr, ap, ap₂, arith, blit, false,
  if◌then◌else◌, length, length-append, min, none, peek, peek-blit, poke, refl, some, suc, sym,
  take, true, ℕ, ◌++◌, ◌+◌, ◌<◌, ◌==◌, ◌∙◌, ◌∷◌, ◌≡◌, ◌≢◌, zero,
}
use fx_ip.Hayes.{
  Outcome, Reader, ReadRound, Taken, completes, copy_reply, end_line, goes_on, hayes_buffer_size,
  hayes_read, leaves_buffer, overrun, read_rounds, reads, returned, store_byte, take_byte,
  timed_out,
}
use fx_ip.Psock.Line.{Lacks}

-- Rounds that read these bytes, with any number of rounds without a byte between them, all in time;
-- the last round is the one that reads the last byte.
pub data Gives (start timeout : ℕ) : List ReadRound → List ℕ → Type 0 where
  done :
      {rounds : List ReadRound} {bytes : List ℕ}
      → rounds ≡ []
      → bytes ≡ []
      → Gives start timeout rounds bytes
  idle :
      {rounds : List ReadRound} {bytes : List ℕ} (now : ℕ) (later : List ReadRound)
      → timed_out start timeout now ≡ false
      → rounds ≡ record { byte = none; now = now } ∷ later
      → Gives start timeout later bytes
      → Gives start timeout rounds bytes
  read :
      {rounds : List ReadRound} {bytes : List ℕ} (x now : ℕ) (later : List ReadRound)
      (rest : List ℕ)
      → timed_out start timeout now ≡ false
      → rounds ≡ record { byte = some x; now = now } ∷ later
      → bytes ≡ x ∷ rest
      → Gives start timeout later rest
      → Gives start timeout rounds bytes

-- what these bytes lead to
take_bytes : Reader → List ℕ → Taken
take_bytes r [] = reads r
take_bytes r (x ∷ xs) = elim (take_byte r x) [
  | reads r' ↦ take_bytes r' xs
  | completes r' ↦ completes r'
  | leaves_buffer ↦ leaves_buffer
]

take_bytes_reads :
    (r r' : Reader) (x : ℕ) (xs : List ℕ)
    → take_byte r x ≡ reads r'
    → take_bytes r (x ∷ xs) ≡ take_bytes r' xs
unfolding take_bytes
take_bytes_reads r r' x xs e = rw (e, take_bytes) refl

take_bytes_completes :
    (r r' : Reader) (x : ℕ) (xs : List ℕ)
    → take_byte r x ≡ completes r'
    → take_bytes r (x ∷ xs) ≡ completes r'
unfolding take_bytes
take_bytes_completes r r' x xs e = rw (e, take_bytes) refl

take_bytes_leaves :
    (r : Reader) (x : ℕ) (xs : List ℕ)
    → take_byte r x ≡ leaves_buffer
    → take_bytes r (x ∷ xs) ≡ leaves_buffer
unfolding take_bytes
take_bytes_leaves r x xs e = rw (e, take_bytes) refl

module _ (start timeout len : ℕ) (readbuf : Mem) where
  outcome : Taken → Outcome
  outcome (reads r) = goes_on
  outcome (completes r) = returned 1 (copy_reply r readbuf len)
  outcome leaves_buffer = overrun

  round_idle :
      (r : Reader) (now : ℕ) (later : List ReadRound)
      → timed_out start timeout now ≡ false
      → read_rounds start timeout len r readbuf (record { byte = none; now = now } ∷ later)
        ≡ read_rounds start timeout len r readbuf later
  unfolding read_rounds
  round_idle r now later h = rw h refl

  round_read :
      (t : Taken) (r : Reader) (x now : ℕ) (later : List ReadRound) (rest : List ℕ)
      → timed_out start timeout now ≡ false
      → take_byte r x ≡ t
      → ((r' : Reader)
          → read_rounds start timeout len r' readbuf later ≡ outcome (take_bytes r' rest))
      → read_rounds start timeout len r readbuf (record { byte = some x; now = now } ∷ later)
        ≡ outcome (take_bytes r (x ∷ rest))
  unfolding read_rounds take_bytes outcome
  round_read (reads r') r x now later rest h e ih = rw (e, read_rounds, take_bytes) (rw h (ih r'))
  round_read (completes r') r x now later rest h e ih = rw (e, read_rounds, take_bytes) refl
  round_read leaves_buffer r x now later rest h e ih = rw (e, read_rounds, take_bytes) refl

  read_rounds-take_bytes :
      {rounds : List ReadRound} {bytes : List ℕ} (r : Reader)
      → Gives start timeout rounds bytes
      → read_rounds start timeout len r readbuf rounds ≡ outcome (take_bytes r bytes)
  unfolding read_rounds take_bytes outcome
  read_rounds-take_bytes r (done a b) =
      ap (read_rounds start timeout len r readbuf) a ∙ sym (ap (λ t. outcome (take_bytes r t)) b)
  read_rounds-take_bytes r (idle now later h a g) =
      ap (read_rounds start timeout len r readbuf) a
      ∙ round_idle r now later h
      ∙ read_rounds-take_bytes r g
  read_rounds-take_bytes r (read x now later rest h a b g) =
      ap (read_rounds start timeout len r readbuf) a
      ∙ round_read (take_byte r x) r x now later rest h refl (λ r'. read_rounds-take_bytes r' g)
      ∙ sym (ap (λ t. outcome (take_bytes r t)) b)

-- the reader with these bytes behind its offset
abbrev stored : Reader → List ℕ → Reader
stored r bytes = record r {
  response = blit r.response r.offset bytes;
  offset = r.offset + length bytes;
}

-- and with a NUL behind them
abbrev ended : Reader → List ℕ → Reader
ended r bytes = record (stored r bytes) {
  response = poke (blit r.response r.offset bytes) (r.offset + length bytes) 0;
}

stored-cons : (r : Reader) (x : ℕ) (xs : List ℕ) → stored (stored r (x ∷ [])) xs ≡ stored r (x ∷ xs)
stored-cons r x xs =
    ap
      (λ o. record r { response = blit (poke r.response r.offset x) (r.offset + 1) xs; offset = o })
      (omega arith)

module _ (r : Reader) (x : ℕ) where
  store_byte_fits : r.offset < hayes_buffer_size → store_byte r x ≡ some (stored r (x ∷ []))
  unfolding store_byte
  store_byte_fits h =
      let inside : ltb r.offset hayes_buffer_size ≡ true = ground arith in
      rw inside (
        ap (λ o. some (record r { response = poke r.response r.offset x; offset = o }))
          (omega arith))

  take_byte_full : hayes_buffer_size ≤ r.offset → take_byte r x ≡ leaves_buffer
  unfolding take_byte store_byte
  take_byte_full h =
      let outside : ltb r.offset hayes_buffer_size ≡ false = ground arith in
      rw (outside, take_byte, store_byte) refl

  -- a byte other than the newline
  take_byte_plain :
      x ≢ 10 → r.offset < hayes_buffer_size → take_byte r x ≡ reads (stored r (x ∷ []))
  unfolding take_byte
  take_byte_plain h k =
      let no : (x == 10) ≡ false = ground arith in rw (store_byte_fits k, take_byte) (rw no refl)

module _ (r : Reader) where
  -- the newline, by the room for the NUL behind it
  take_byte_newline : r.offset < hayes_buffer_size → take_byte r 10 ≡ end_line (stored r (10 ∷ []))
  unfolding take_byte
  take_byte_newline h = rw (store_byte_fits r 10 h, take_byte) refl

  echo_ends :
      r.echo ≡ 0
      → r.offset + 1 < hayes_buffer_size
      → take_byte r 10 ≡ reads (record (ended r (10 ∷ [])) { echo = 1; offset = 0 })
  unfolding end_line
  echo_ends h k =
      let inside : ltb (r.offset + 1) hayes_buffer_size ≡ true = ground arith in
      let none_yet : (r.echo == 0) ≡ true = ground arith in
      take_byte_newline (omega arith) ∙ rw inside (rw none_yet refl)

  answer_ends :
      r.echo ≡ 1 → r.offset + 1 < hayes_buffer_size → take_byte r 10 ≡ completes (ended r (10 ∷ []))
  unfolding end_line
  answer_ends h k =
      let inside : ltb (r.offset + 1) hayes_buffer_size ≡ true = ground arith in
      let second : (r.echo == 0) ≡ false = ground arith in
      take_byte_newline (omega arith) ∙ rw inside (rw second refl)

  newline_full : hayes_buffer_size ≤ r.offset + 1 → take_byte r 10 ≡ leaves_buffer
  unfolding end_line
  newline_full h = elim (dec_lt r.offset hayes_buffer_size) [
    | yes last_place ↦
        let outside : ltb (r.offset + 1) hayes_buffer_size ≡ false = ground arith in
        take_byte_newline last_place ∙ rw outside refl
    | no full ↦ take_byte_full r 10 (omega arith)
  ]

blit-append :
    (m : Mem) (i : ℕ) (xs ys : List ℕ) → blit m i (xs ++ ys) ≡ blit (blit m i xs) (i + length xs) ys
blit-append m i [] ys = ap (λ t. blit m t ys) (omega arith)
blit-append m i (x ∷ xs) ys =
    blit-append (poke m i x) (i + 1) xs ys
    ∙ ap (λ t. blit (blit (poke m i x) (i + 1) xs) t ys) (omega arith)

peek-min : (m : Mem) (p a b : ℕ) → peek m p (min a b) ≡ take b (peek m p a)
peek-min m p a zero = ap (peek m p) {y = 0} (omega arith)
peek-min m p zero (suc b) = ap (peek m p) {y = 0} (omega arith)
peek-min m p (suc a) (suc b) =
    ap (peek m p) {y = suc (min a b)} (omega arith) ∙ ap (◌∷◌ (m p)) (peek-min m (p + 1) a b)

-- The bytes before a newline are stored, as far as there is room.
take_bytes_line :
    (line rest : List ℕ) (r : Reader)
    → Lacks 10 line
    → r.offset + length line ≤ hayes_buffer_size
    → take_bytes r (line ++ rest) ≡ take_bytes (stored r line) rest
take_bytes_line [] rest r l h = ap (λ o. take_bytes (record r { offset = o }) rest) (omega arith)
take_bytes_line (x ∷ line) rest r l h =
    take_bytes_reads r (stored r (x ∷ [])) x (line ++ rest) (take_byte_plain r x l.0 (omega arith))
    ∙ take_bytes_line line rest (stored r (x ∷ [])) l.1 (omega arith)
    ∙ ap (λ t. take_bytes t rest) (stored-cons r x line)

-- A line that does not fit with its newline and a NUL leaves the buffer.
take_bytes_long :
    (line rest : List ℕ) (r : Reader)
    → Lacks 10 line
    → hayes_buffer_size ≤ r.offset + length line + 1
    → take_bytes r (line ++ (10 ∷ rest)) ≡ leaves_buffer
take_bytes_long [] rest r l h = take_bytes_leaves r 10 rest (newline_full r (omega arith))
take_bytes_long (x ∷ line) rest r l h = elim (dec_lt r.offset hayes_buffer_size) [
  | yes inside ↦
      take_bytes_reads r (stored r (x ∷ [])) x (line ++ (10 ∷ rest))
        (take_byte_plain r x l.0 inside)
      ∙ take_bytes_long line rest (stored r (x ∷ [])) l.1 (omega arith)
  | no full ↦ take_bytes_leaves r x (line ++ (10 ∷ rest)) (take_byte_full r x (omega arith))
]

-- the state behind an echo that fits, and what an answer leads to
abbrev echoed : Mem → List ℕ → Reader
echoed response echo =
    record (ended (stored (record { response = response; offset = 0; echo = 0 }) echo) (10 ∷ [])) {
      echo = 1;
      offset = 0;
    }

take_bytes_echo :
    (response : Mem) (echo rest : List ℕ)
    → Lacks 10 echo
    → length echo + 1 < hayes_buffer_size
    → take_bytes (record { response = response; offset = 0; echo = 0 }) (echo ++ (10 ∷ rest))
      ≡ take_bytes (echoed response echo) rest
take_bytes_echo response echo rest l h =
    let r0 : Reader = record { response = response; offset = 0; echo = 0 } in
    take_bytes_line echo (10 ∷ rest) r0 l (omega arith)
    ∙ take_bytes_reads (stored r0 echo) (echoed response echo) 10 rest
        (echo_ends (stored r0 echo) refl (omega arith))

take_bytes_answer :
    (r : Reader) (reply : List ℕ)
    → r.offset ≡ 0
    → r.echo ≡ 1
    → Lacks 10 reply
    → length reply + 1 < hayes_buffer_size
    → take_bytes r (reply ++ (10 ∷ [])) ≡ completes (ended (stored r reply) (10 ∷ []))
take_bytes_answer r reply o e l h =
    take_bytes_line reply (10 ∷ []) r l (omega arith)
    ∙ take_bytes_completes (stored r reply) (ended (stored r reply) (10 ∷ [])) 10 []
        (answer_ends (stored r reply) e (omega arith))

-- what is copied of an answer
copy_answer :
    (m readbuf : Mem) (len : ℕ) (reply : List ℕ)
    → copy_reply
        (ended (stored (record { response = m; offset = 0; echo = 1 }) reply) (10 ∷ []))
        readbuf
        len
      ≡ blit readbuf 0 (take len (reply ++ (10 ∷ 0 ∷ [])))
copy_answer m readbuf len reply =
    let text : List ℕ = reply ++ (10 ∷ 0 ∷ []) in
    let r : Reader =
      ended (stored (record { response = m; offset = 0; echo = 1 }) reply) (10 ∷ []) in
    let written : r.response ≡ blit m 0 text = sym (blit-append m 0 reply (10 ∷ 0 ∷ [])) in
    let size : r.offset + 1 ≡ length text = omega (arith, length-append {0} reply (10 ∷ 0 ∷ [])) in
    ap (blit readbuf 0) (
      ap₂ (λ z n. peek z 0 (min n len)) written size
      ∙ peek-min (blit m 0 text) 0 (length text) len
      ∙ ap (take len) (peek-blit m 0 text))

-- a line fits the buffer, with its newline and a NUL
abbrev pub fits_buffer : List ℕ → Bool
fits_buffer line = ltb (length line + 1) hayes_buffer_size

-- With the echo not ignored, for rounds that give an echo and an answer, each a line, with any
-- number of rounds without a byte between, and none late: if each of the two has less than 127
-- bytes, so that it fits the 128 bytes of hayes_response_buffer with its newline and a NUL,
-- hayes_read returns 1 in the round of the last byte, and readbuf starts with the answer, its
-- newline and a NUL, as far as they fit; otherwise it writes past the end of
-- hayes_response_buffer.
pub hayes_read-reply :
    (response readbuf : Mem) (readbuflength timeout start : ℕ) (echo reply : List ℕ)
    {rounds : List ReadRound}
    → Gives start timeout rounds (echo ++ (10 ∷ (reply ++ (10 ∷ []))))
    → Lacks 10 echo
    → Lacks 10 reply
    → hayes_read response readbuf readbuflength timeout 0 start rounds ≡ (
        if fits_buffer echo && fits_buffer reply
        then returned 1 (blit readbuf 0 (take readbuflength (reply ++ (10 ∷ 0 ∷ []))))
        else overrun)
unfolding hayes_read outcome
hayes_read-reply response readbuf len timeout start echo reply g l1 l2 =
    let r0 : Reader = record { response = response; offset = 0; echo = 0 } in
    let rest : List ℕ = reply ++ (10 ∷ []) in
    let m : Mem = (echoed response echo).response in
    read_rounds-take_bytes start timeout len readbuf r0 g ∙ elim (Bool-cases (fits_buffer echo)) [
      | inl e ↦
          ap (outcome start timeout len readbuf)
            (take_bytes_echo response echo rest l1 (ground arith))
          ∙ elim (Bool-cases (fits_buffer reply)) [
            | inl f ↦
                ap (outcome start timeout len readbuf)
                  (take_bytes_answer (echoed response echo) reply refl refl l2 (ground arith))
                ∙ rw (e, f) (ap (returned 1) (copy_answer m readbuf len reply))
            | inr f ↦
                ap (outcome start timeout len readbuf)
                  (take_bytes_long reply [] (echoed response echo) l2 (ground arith))
                ∙ rw (e, f) refl
          ]
      | inr e ↦
          ap (outcome start timeout len readbuf) (take_bytes_long echo rest r0 l1 (ground arith))
          ∙ rw e refl
    ]
