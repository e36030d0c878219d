-- ===== src/Hayes.antt =====
-- The dialogue with a modem, src/hayes.c, over the serial driver.
use mathlib.Core.Option
pub mod Reply
use fx_ip.Base.{
  Bool, List, Mem, Option, [], blit, false, if◌then◌else◌, ltb, min, none, not, peek, poke, some,
  suc, true, zero, ℕ, ◌%◌, ◌&&◌, ◌+◌, ◌==◌, ◌^◌, ◌∷◌, length,
}
use fx_ip.Scif.{Scif, scif_read_flush, scif_write}

-- what one round of the loop of `hayes_read` meets: the result of `scif_read`, and the clock behind it
pub record ReadRound : Type 0 where
  pub byte : Option ℕ
  pub now : ℕ

-- `hayes_response_buffer` with its offset, and `echo`
pub record Reader : Type 0 where
  pub response : Mem
  pub offset : ℕ
  pub echo : ℕ

-- what a byte leads to: the loop reads on, the answer is complete, or the byte or the NUL behind it is
-- written past the end of `hayes_response_buffer`, whose size nothing tests
pub data Taken : Type 0 where
  reads : Reader → Taken
  completes : Reader → Taken
  leaves_buffer : Taken

-- `sizeof(hayes_response_buffer)`
abbrev pub hayes_buffer_size : ℕ
hayes_buffer_size = 128

-- a byte is stored; `none` where there is no place for it
unfoldable pub store_byte : Reader → ℕ → Option Reader
store_byte r x =
    if ltb r.offset hayes_buffer_size
    then some (record r { response = poke r.response r.offset x; offset = (r.offset + 1) % 2 ^ 16 })
    else none

-- the NUL behind a newline, and what follows it
unfoldable pub end_line : Reader → Taken
end_line stored =
    let ended = record stored { response = poke stored.response stored.offset 0 } in
    if ltb stored.offset hayes_buffer_size
    then if stored.echo == 0 then reads (record ended { echo = 1; offset = 0 }) else completes ended
    else leaves_buffer

unfoldable pub take_byte : Reader → ℕ → Taken
take_byte r x = elim (store_byte r x) [
  | none ↦ leaves_buffer
  | some stored ↦ if x == 10 then end_line stored else reads stored
]

-- the copy into `readbuf`
abbrev pub copy_reply : Reader → Mem → ℕ → Mem
copy_reply r readbuf readbuflength =
    blit readbuf 0 (peek r.response 0 (min (r.offset + 1) readbuflength))

-- `start + timeout < clock_time()`, in 32 bits
abbrev pub timed_out : ℕ → ℕ → ℕ → Bool
timed_out start timeout now = not (timeout == 0) && ltb ((start + timeout) % 2 ^ 32) now

-- What `hayes_read` does over some rounds: it goes on, it returns a result and leaves `readbuf`, or
-- it writes past the end of its buffer; what the program does behind that is not modelled.
pub data Outcome : Type 0 where
  goes_on : Outcome
  returned : ℕ → Mem → Outcome
  overrun : Outcome

-- its loop over these rounds
unfoldable pub read_rounds : ℕ → ℕ → ℕ → Reader → Mem → List ReadRound → Outcome
read_rounds start timeout readbuflength r readbuf [] = goes_on
read_rounds start timeout readbuflength r readbuf (round ∷ rounds) =
    let taken : Taken = elim round.byte [ none ↦ reads r | some x ↦ take_byte r x ] in
    elim taken [
      | leaves_buffer ↦ overrun
      | completes r' ↦ returned 1 (copy_reply r' readbuf readbuflength)
      | reads r' ↦
          let later = read_rounds start timeout readbuflength r' readbuf rounds in
          if timed_out start timeout round.now then returned 0 readbuf else later
    ]

unfoldable pub hayes_read : Mem → Mem → ℕ → ℕ → ℕ → ℕ → List ReadRound → Outcome
hayes_read response readbuf readbuflength timeout ignore_echo start rounds =
    read_rounds start timeout readbuflength
      (record { response = response; offset = 0; echo = ignore_echo % 2 ^ 8 }) readbuf rounds

-- `hayes_send`; `none` while a write waits for room
unfoldable pub hayes_send : List ℕ → Scif → Option Scif
hayes_send command s =
    if length command == 0
    then some s
    else elim (scif_write s command) [ none ↦ none | some s' ↦ scif_write s' (13 ∷ 10 ∷ []) ]

-- `hayes_send_and_read`: what `hayes_read` gives over these rounds, and the driver before them; the
-- fuel is that of the flush
unfoldable pub hayes_send_and_read :
    ℕ → List ℕ → Mem → Mem → ℕ → ℕ → List ReadRound → Scif → Option (Outcome × Scif)
hayes_send_and_read fuel command response readbuf readbuflength start rounds s =
    elim (scif_read_flush fuel s) [
      | none ↦ none
      | some flushed ↦
          Option.map (λ sent. (hayes_read response readbuf readbuflength 20 0 start rounds, sent))
            (hayes_send command flushed)
    ]
