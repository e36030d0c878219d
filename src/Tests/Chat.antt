-- ===== src/Tests/Chat.antt =====
-- Tests of src/uip/irc.c: lines of the server.
use fx_ip.Base.{
  List, Mem, [], arith, blit, false, is_same_case, length, none, peek, refl, some, true, ℕ, ◌-◌,
  ◌^◌, ◌∷◌, ◌≡◌,
}
use fx_ip.Irc.{Irc, irc_parse_line, pong, said, write_page}
use fx_ip.Irc.Answer.{irc_appcall-ping, waiting_client}
use fx_ip.Irc.Client.{Client, irc_appcall}
use fx_ip.Irc.Empty.{IsUnknown, irc_parse_line_empty}
use fx_ip.Irc.Ping.{ping_line, rest_of}
use fx_ip.Irc.Print.{printed}
use fx_ip.Irc.Said.{irc_parse_line-privmsg, privmsg_line}
use fx_ip.Irc.Split.{line}
use fx_ip.Objectlog.{sum_lens, write_loop, writer}
use fx_ip.Psock.{Io, Psock, at_start, state_none}
use fx_ip.Psock.Sent.{sending}
use fx_ip.Tests.Logs.{two_objects}
use fx_ip.Ui.{page_irc_channel, page_irc_overview}
use fx_ip.Ui.Logged.{message_list}

-- a client with this line in its input buffer, and a message that waits to be sent
abbrev client : List ℕ → Irc
client bytes = record {
  inputbuffer = blit (λ i. 0) 0 bytes;
  messagebuffer = λ i. b'x';
  messagelength = 9;
  printflength = 0;
  log = two_objects;
}

-- `:ann!host PRIVMSG #c :hi`
abbrev ann : List ℕ
ann = b'a' ∷ b'n' ∷ b'n' ∷ []

abbrev host : List ℕ
host = b'h' ∷ b'o' ∷ b's' ∷ b't' ∷ []

abbrev channel : List ℕ
channel = b'#' ∷ b'c' ∷ []

abbrev hi : List ℕ
hi = b'h' ∷ b'i' ∷ []

irc_parse_line-privmsg_example :
    (m' : Mem) × (irc_parse_line 0 0 26 (client (privmsg_line ann host channel hi))
      ≡ write_page page_irc_channel (said ann hi) (
          printed
            (said ann hi)
            (record (client (privmsg_line ann host channel hi)) { inputbuffer = m' })))
irc_parse_line-privmsg_example =
    irc_parse_line-privmsg 0 (client (privmsg_line ann host channel hi)) 0 ann host channel hi
      (omega arith) refl (omega arith) (omega arith)

-- `:host 372 ann :`
abbrev number : List ℕ
number = b'3' ∷ b'7' ∷ b'2' ∷ []

number-IsUnknown : IsUnknown number
unfolding is_same_case
number-IsUnknown = record {
  some_word = omega arith;
  not_privmsg = refl;
  not_ping = refl;
  not_join = refl;
}

irc_parse_line_empty_example :
    (m' : Mem) × (bytes : List ℕ) × (irc_parse_line 0 0 17 (client (line host number ann []))
      ≡ write_page page_irc_overview bytes
          (record (client (line host number ann [])) { inputbuffer = m' }))
    × (length bytes ≡ 2 ^ 16 - 1)
    × (write_loop 1000 (
          writer two_objects.ring
            (message_list page_irc_overview 0 0 bytes)
            (sum_lens 0 (message_list page_irc_overview 0 0 bytes)))
        ≡ none)
irc_parse_line_empty_example =
    irc_parse_line_empty 0 (client (line host number ann [])) 0 host number ann number-IsUnknown
      (omega arith) refl (omega arith) 1000 two_objects.ring

abbrev socket : Psock
socket = record {
  lc = at_start;
  sendptr = 0;
  sendlen = 0;
  read = [];
  buf = record { cell = λ i. 0; ptr = 0; left = 1024 };
  bufptr = 0;
  bufsize = 1024;
  state = state_none;
}

abbrev packet : Io
packet = record {
  acked = false;
  rexmit = false;
  newdata = true;
  appdata = ping_line hi;
  mss = 1460;
  outgoing = [];
}

irc_appcall-ping_example :
    (c' : Client) × (irc_appcall 0 false false false
        (waiting_client socket socket socket.buf state_none (client []))
        packet
      ≡ some (c', record packet { outgoing = pong (rest_of hi) }))
    × (c'.irc.log ≡ two_objects)
    × (c'.psock_out ≡ sending socket 0 (length (pong (rest_of hi))))
    × (peek c'.irc.messagebuffer 0 (length (pong (rest_of hi))) ≡ pong (rest_of hi))
irc_appcall-ping_example =
    irc_appcall-ping 0 socket socket socket.buf state_none (client []) hi packet
      (λ e. absurd (omega arith)) refl refl (omega arith) (omega arith) (omega arith) (omega arith)
      (omega arith) refl refl (omega arith)
