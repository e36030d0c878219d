-- ===== src/Irc/Client.antt =====
-- The protothreads of src/uip/irc.c, and what the stack calls: `irc_appcall` and `irc_connect`.
-- `irc.inputbuffer` is the memory of `psock.buf`. The field `pt` of a socket, the place of its
-- thread, is `thread_at` here and `sender_at`.
use mathlib.Core.Option
use fx_ip.Base.{
  Bool, List, Mem, Option, [], blit, false, if◌then◌else◌, length, none, some, suc, true, zero, ℕ,
  ◌+◌, ◌==◌, ◌||◌, ◌∷◌,
}
use fx_ip.Irc.{Irc, irc_parse_line}
use fx_ip.Psock.{
  Io, Progress, Psock, ended, exited, psock_datalen, psock_init, psock_readto, psock_send, waiting,
}

-- the lines that the client sends when it starts
abbrev pub nick_line : List ℕ
nick_line =
    b'n' ∷ b'i' ∷ b'c' ∷ b'k' ∷ b' ' ∷ b'C' ∷ b'a' ∷ b's' ∷ b'i' ∷ b'o' ∷ b'F' ∷ b'X' ∷ b'I' ∷ b'R'
    ∷ b'C' ∷ 13 ∷ 10 ∷ []

abbrev pub user_line : List ℕ
user_line =
    b'u' ∷ b's' ∷ b'e' ∷ b'r' ∷ b' ' ∷ b'C' ∷ b'a' ∷ b's' ∷ b'i' ∷ b'o' ∷ b'F' ∷ b'X' ∷ b'I' ∷ b'R'
    ∷ b'C' ∷ b' ' ∷ b'0' ∷ b' ' ∷ b'0' ∷ b' ' ∷ b'C' ∷ b'a' ∷ b's' ∷ b'i' ∷ b'o' ∷ b'F' ∷ b'X' ∷ 13
    ∷ 10 ∷ []

abbrev pub join_line : List ℕ
join_line =
    b'J' ∷ b'O' ∷ b'I' ∷ b'N' ∷ b' ' ∷ b'#' ∷ b'#' ∷ b'w' ∷ b'h' ∷ b'i' ∷ b't' ∷ b'e' ∷ b'q' ∷ b'u'
    ∷ b'a' ∷ b'r' ∷ b'k' ∷ 13 ∷ 10 ∷ []

-- where `irc_thread` goes on
pub data ThreadAt : Type 0 where
  at_nick at_user at_first_line at_join at_second_line at_lines : ThreadAt

-- where `irc_send_thread` goes on
pub data SenderAt : Type 0 where
  at_message at_line_end : SenderAt

-- `struct irc_state`, without the fields that nothing reads, and the globals
pub record Client : Type 0 where
  pub connected : Bool
  pub thread_at : ThreadAt
  pub sender_at : SenderAt
  pub psock : Psock
  pub psock_out : Psock
  pub irc : Irc

-- Does `PT_WAIT_THREAD` wait?
abbrev pub is_waiting : Progress → Bool
is_waiting waiting = true
is_waiting exited = false
is_waiting ended = false

-- A step of a thread: whether the thread waits, the client, and what the stack offers.
abbrev pub Step : Type 0
Step = Option (Bool × Client × Io)

-- the memory of a string constant, from index 0 on
abbrev pub constant : List ℕ → Mem
constant text = blit (λ i. 0) 0 text

-- `PSOCK_SEND_STR(&s->psock, …)`, with the place behind it
unfoldable pub send_str : List ℕ → ThreadAt → Client → Io → Step
send_str text next c io =
    Option.map
      (λ r. (
        is_waiting r.0,
        record c { psock = r.1; thread_at = if is_waiting r.0 then c.thread_at else next },
        r.2,
      ))
      (psock_send c.psock (constant text) 0 (length text) io)

-- `PSOCK_READTO(&s->psock, '\n')`, with what follows it
unfoldable pub read_line : (Client → Option Client) → Client → Io → Step
read_line next c io = elim (psock_readto c.psock 10 io) [
  | none ↦ none
  | some r ↦
      let c' : Client = record c { psock = r.1 } in
      if is_waiting r.0 then some (true, c', io) else Option.map (λ d. (false, d, io)) (next c')
]

-- `irc_parse_line(s->psock.bufptr, PSOCK_DATALEN(&s->psock))`
unfoldable pub parse_input : ℕ → Client → Option Client
parse_input behind c =
    Option.map
      (λ irc. record c {
        irc = irc;
        psock = record c.psock { buf = record c.psock.buf { cell = irc.inputbuffer } };
      })
      (irc_parse_line behind c.psock.bufptr (psock_datalen c.psock)
        (record c.irc { inputbuffer = c.psock.buf.cell }))

abbrev pub go_to : ThreadAt → Client → Option Client
go_to next c = some (record c { thread_at = next })

-- `irc_thread`, from one wait to the next
unfoldable pub thread_step : ℕ → Client → Io → Step
thread_step behind c io = elim c.thread_at [
  | at_nick ↦ send_str nick_line at_user c io
  | at_user ↦ send_str user_line at_first_line c io
  | at_first_line ↦ read_line (go_to at_join) c io
  | at_join ↦ send_str join_line at_second_line c io
  | at_second_line ↦ read_line (go_to at_lines) c io
  | at_lines ↦ read_line (parse_input behind) c io
]

-- `irc_thread`; `none`: a step gives no result, or the fuel runs out
unfoldable pub thread_loop : ℕ → ℕ → Client → Io → Option (Client × Io)
thread_loop zero behind c io = none
thread_loop (suc fuel) behind c io = elim (thread_step behind c io) [
  | none ↦ none
  | some r ↦ let later = thread_loop fuel behind r.1 r.2 in if r.0 then some (r.1, r.2) else later
]

-- Each round sends one of three lines, or takes a byte at least from what there is to read.
unfoldable pub irc_thread : ℕ → Client → Io → Option (Client × Io)
irc_thread behind c io = thread_loop (6 + length c.psock.read + length io.appdata) behind c io

-- `irc_send_thread`, from one wait to the next
unfoldable pub send_step : Client → Io → Step
send_step c io = elim c.sender_at [
  | at_message ↦
      Option.map
        (λ r. (
          is_waiting r.0,
          record c {
            psock_out = r.1;
            sender_at = if is_waiting r.0 then at_message else at_line_end;
          },
          r.2,
        ))
        (psock_send c.psock_out c.irc.messagebuffer 0 c.irc.messagelength io)
  | at_line_end ↦
      Option.map
        (λ r. (
          is_waiting r.0,
          record c {
            psock_out = r.1;
            sender_at = if is_waiting r.0 then at_line_end else at_message;
            irc = if is_waiting r.0 then c.irc else record c.irc { messagelength = 0 };
          },
          r.2,
        ))
        (psock_send c.psock_out (constant (13 ∷ 10 ∷ [])) 0 2 io)
]

-- At most: the end of the message, and that of the line.
unfoldable pub irc_send_thread : Client → Io → Option (Client × Io)
irc_send_thread c io = elim (send_step c io) [
  | none ↦ none
  | some r ↦ if r.0 then some (r.1, r.2) else elim r.1.sender_at [
    | at_message ↦ some (r.1, r.2)
    | at_line_end ↦ Option.map (λ r2. (r2.1, r2.2)) (send_step r.1 r.2)
  ]
]

-- `irc_appcall`, with the flags that end the connection
unfoldable pub irc_appcall : ℕ → Bool → Bool → Bool → Client → Io → Option (Client × Io)
irc_appcall behind closed aborted timedout c io =
    if closed || (aborted || timedout)
    then some (record c { connected = false }, io)
    else elim (irc_thread behind c io) [
      | none ↦ none
      | some r ↦ if r.0.irc.messagelength == 0 then some r else irc_send_thread r.0 r.1
    ]

-- `irc_connect`, behind `uip_connect`, which answered a connection; `memory` is the input buffer
unfoldable pub irc_connect : Mem → Client → Client
irc_connect memory c = record c {
  connected = true;
  thread_at = at_nick;
  sender_at = at_message;
  psock = psock_init c.psock memory 0 1024;
  psock_out = psock_init c.psock_out memory 0 1024;
  irc = record c.irc { inputbuffer = memory; messagelength = 0 };
}
