-- ===== src/Psock.antt =====
-- The protosockets of src/uip/psock.c. A protothread is a function of the socket and of what the
-- stack offers in this call; its place of continuation is the field `lc`, and `pt`, that of the
-- caller, is left to the caller. `sendptr` is an index into the memory that each call of `psock_send`
-- is given, and read again at each retransmission; `readptr` with `readlen` is the list of the bytes
-- that stand there (they are gone when the next packet comes).
-- The operands of `data_acked(s) & send_data(s)` are taken in the order in which they are written.

pub mod Line
pub mod Reading
pub mod Sent
use fx_ip.Base.{
  Bool, List, Mem, Option, [], blit, drop, false, if◌then◌else◌, length, ltb, min, none, not, peek,
  poke, some, suc, take, true, zero, ℕ, ◌%◌, ◌&&◌, ◌+◌, ◌-◌, ◌/◌, ◌==◌, ◌^◌, ◌||◌, ◌∷◌,
}

-- `s->state`
abbrev pub state_none : ℕ
state_none = 0

abbrev pub state_acked : ℕ
state_acked = 1

abbrev pub state_read : ℕ
state_read = 2

abbrev pub state_blocked_newdata : ℕ
state_blocked_newdata = 3

abbrev pub state_data_sent : ℕ
state_data_sent = 6

-- the results of the buffering functions
abbrev pub buf_full : ℕ
buf_full = 1

abbrev pub buf_found : ℕ
buf_found = 2

-- the results of a protothread
pub data Progress : Type 0 where
  waiting : Progress
  exited : Progress
  ended : Progress

-- where a protothread goes on: at its start, or at the wait of one of the functions
pub data Place : Type 0 where
  at_start : Place
  in_send : Place
  in_readto : Place
  in_readbuf : Place

-- `struct psock_buf`, with the memory that `ptr` points into
pub record Buf : Type 0 where
  pub cell : Mem
  pub ptr : ℕ
  pub left : ℕ

-- `struct psock`: `read` is `readptr` with `readlen`
pub record Psock : Type 0 where
  pub lc : Place
  pub sendptr : ℕ
  pub sendlen : ℕ
  pub read : List ℕ
  pub buf : Buf
  pub bufptr : ℕ
  pub bufsize : ℕ
  pub state : ℕ

-- what the stack offers in one call of the application, and the bytes that it is given to send
pub record Io : Type 0 where
  pub acked : Bool
  pub rexmit : Bool
  pub newdata : Bool
  pub appdata : List ℕ
  pub mss : ℕ
  pub outgoing : List ℕ

unfoldable pub buf_setup : Buf → ℕ → ℕ → Buf
buf_setup buf bufptr bufsize = record buf { ptr = bufptr; left = bufsize % 2 ^ 16 }

-- the result, the buffer, and what is left of the data
unfoldable pub buf_bufdata : Buf → List ℕ → ℕ × Buf × List ℕ
buf_bufdata b bytes =
    if ltb (length bytes) b.left
    then (
      0,
      record {
        cell = blit b.cell b.ptr bytes;
        ptr = b.ptr + length bytes;
        left = b.left - length bytes;
      },
      [],
    )
    else (
      buf_full,
      record { cell = blit b.cell b.ptr (take b.left bytes); ptr = b.ptr + b.left; left = 0 },
      drop b.left bytes,
    )

abbrev pub put_byte : Buf → ℕ → Buf
put_byte b c = record { cell = poke b.cell b.ptr c; ptr = b.ptr + 1; left = b.left - 1 }

-- the first loop of `buf_bufto`: whether the marker came, the buffer, and the data that are left
unfoldable pub bufto_store : ℕ → Buf → List ℕ → Bool × Buf × List ℕ
bufto_store endmarker b [] = (false, b, [])
bufto_store endmarker b (c ∷ later) =
    let rest = bufto_store endmarker (put_byte b c) later in
    if b.left == 0
    then (false, b, c ∷ later)
    else if c == endmarker
    then (true, put_byte b c, later)
    else rest

-- its second loop
unfoldable pub bufto_skip : ℕ → List ℕ → Bool × List ℕ
bufto_skip endmarker [] = (false, [])
bufto_skip endmarker (c ∷ later) =
    if c == endmarker then (true, later) else bufto_skip endmarker later

abbrev pub is_empty : List ℕ → Bool
is_empty [] = true
is_empty (x ∷ xs) = false

unfoldable pub buf_bufto : Buf → ℕ → List ℕ → ℕ × Buf × List ℕ
unfolding bufto_store bufto_skip
buf_bufto b endmarker bytes =
    let stored = bufto_store endmarker b bytes in
    let skipped = bufto_skip endmarker stored.2 in
    if stored.0
    then (buf_found, stored.1, stored.2)
    else if is_empty stored.2
    then (0, stored.1, [])
    else ((if skipped.0 then buf_found + buf_full else buf_full), stored.1, skipped.1)

-- `uip_send`
abbrev pub uip_send : List ℕ → Io → Io
uip_send bytes io = if is_empty bytes then io else record io { outgoing = bytes }

unfoldable pub send_data : Psock → Mem → Io → Bool × Psock × Io
send_data s m io =
    if not (s.state == state_data_sent) || io.rexmit
    then (
      true,
      record s { state = state_data_sent },
      uip_send (peek m s.sendptr (min io.mss s.sendlen)) io,
    )
    else (false, s, io)

unfoldable pub data_acked : Psock → Io → Bool × Psock
data_acked s io =
    if s.state == state_data_sent && io.acked
    then (
      true,
      record s {
        sendptr = s.sendptr + min io.mss s.sendlen;
        sendlen = s.sendlen - io.mss;
        state = state_acked;
      },
    )
    else (false, s)

-- The loop of `psock_send`, entered at its test or at the wait; `none` when the fuel runs out.
unfoldable pub psock_send_loop : ℕ → Bool → Psock → Mem → Io → Option (Progress × Psock × Io)
psock_send_loop zero at_wait s m io = none
psock_send_loop (suc fuel) at_wait s m io =
    let a = data_acked s io in
    let b = send_data a.1 m io in
    let later = psock_send_loop fuel false b.1 m b.2 in
    if s.sendlen == 0 && not at_wait
    then some (ended, record s { state = state_none; lc = at_start }, io)
    else if a.0 && b.0
    then later
    else some (waiting, record b.1 { lc = in_send }, b.2)

-- Each round that goes on takes at least one off `sendlen`, for an MSS above 0.
abbrev pub send_fuel : ℕ → ℕ
send_fuel n = suc (suc n)

-- `psock_send` of `len` bytes at `buf`, with the memory as it is at this call
unfoldable pub psock_send : Psock → Mem → ℕ → ℕ → Io → Option (Progress × Psock × Io)
psock_send s m buf len io = elim s.lc [
  | at_start ↦
      if len == 0
      then some (exited, s, io)
      else psock_send_loop (send_fuel (len % 2 ^ 16)) false
          (record s { sendptr = buf; sendlen = len % 2 ^ 16; state = state_none }) m io
  | in_send ↦ psock_send_loop (send_fuel s.sendlen) true s m io
  | other ↦ some (ended, record s { lc = at_start }, io)
]

unfoldable pub psock_datalen : Psock → ℕ
psock_datalen s = (s.bufsize + 2 ^ 16 - s.buf.left) % 2 ^ 16

unfoldable pub psock_newdata : Psock → Io → Bool × Psock
psock_newdata s io =
    if not (is_empty s.read)
    then (true, s)
    else if s.state == state_read
    then (false, record s { state = state_blocked_newdata })
    else (io.newdata, s)

-- the end of the reading functions
abbrev pub read_end : Psock → Progress × Psock
read_end s =
    if psock_datalen s == 0
    then (waiting, record s { state = state_none; lc = at_start })
    else (ended, record s { lc = at_start })

-- The loop of the reading functions, entered at its test or at the wait. `take_in` is the buffering
-- function, with the test for its end; `none` when the fuel runs out.
unfoldable pub read_loop :
    ℕ → (Buf → List ℕ → Bool × Buf × List ℕ) → Place → Bool → Psock → Io → Option (Progress × Psock)
read_loop zero take_in place at_wait s io = none
read_loop (suc fuel) take_in place at_wait s io =
    let asked = psock_newdata s io in
    let asks = at_wait || is_empty s.read in
    let got = if asks then record asked.1 { state = state_read; read = io.appdata } else s in
    let taken = take_in got.buf got.read in
    let s' = record got { buf = taken.1; read = taken.2 } in
    let later = read_loop fuel take_in place false s' io in
    if asks && not asked.0
    then some (waiting, record asked.1 { lc = place })
    else if taken.0
    then some (read_end s')
    else later

abbrev pub takes_to : ℕ → Buf → List ℕ → Bool × Buf × List ℕ
takes_to c b bytes = let r = buf_bufto b c bytes in ((r.0 / buf_found) % 2 == 1, r.1, r.2)

abbrev pub takes_data : Buf → List ℕ → Bool × Buf × List ℕ
takes_data b bytes = let r = buf_bufdata b bytes in (r.0 == buf_full, r.1, r.2)

-- At most: the rest of an earlier packet, the packet of this call, and the wait for the next.
abbrev pub read_fuel : ℕ
read_fuel = 3

unfoldable pub psock_readto : Psock → ℕ → Io → Option (Progress × Psock)
unfolding buf_setup
psock_readto s c io = elim s.lc [
  | at_start ↦
      read_loop read_fuel (takes_to c) in_readto false
        (record s { buf = buf_setup s.buf s.bufptr s.bufsize }) io
  | in_readto ↦ read_loop read_fuel (takes_to c) in_readto true s io
  | other ↦ some (ended, record s { lc = at_start })
]

unfoldable pub psock_readbuf : Psock → Io → Option (Progress × Psock)
unfolding buf_setup
psock_readbuf s io = elim s.lc [
  | at_start ↦
      read_loop read_fuel takes_data in_readbuf false
        (record s { buf = buf_setup s.buf s.bufptr s.bufsize }) io
  | in_readbuf ↦ read_loop read_fuel takes_data in_readbuf true s io
  | other ↦ some (ended, record s { lc = at_start })
]

unfoldable pub psock_init : Psock → Mem → ℕ → ℕ → Psock
unfolding buf_setup
psock_init s memory buffer buffersize = record {
  lc = at_start;
  sendptr = s.sendptr;
  sendlen = s.sendlen;
  read = [];
  buf = buf_setup (record { cell = memory; ptr = 0; left = 0 }) buffer buffersize;
  bufptr = buffer;
  bufsize = buffersize;
  state = state_none;
}
