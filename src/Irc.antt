-- ===== src/Irc.antt =====
-- The IRC client of src/uip/irc.c: the parser of a line, the commands, and the two protothreads that
-- the stack calls. Pointers into the input buffer are indices; writing NULL, and a loop of the object
-- log that runs out of fuel, are `none`.
use mathlib.Core.Option
pub mod Strings
pub mod Print
pub mod Line
pub mod Split
pub mod Said
pub mod Empty
pub mod Ping
pub mod Client
pub mod Answer
use fx_ip.Base.{
  Bool, List, Mem, Option, [], drop, false, if◌then◌else◌, is_same_case, length, memchr, min, none,
  not, peek, poke, snprintf, some, string_at, strlen, suc, take, true, zero, ℕ, ◌%◌, ◌&&◌, ◌++◌,
  ◌+◌, ◌-◌, ◌==◌, ◌^◌, ◌||◌, ◌∷◌,
}
use fx_ip.Objectlog.{Objectlog}
use fx_ip.Ui.{page_irc_channel, page_irc_overview, ui_write_log}

-- the literals
abbrev pub irc_command_privmsg : List ℕ
irc_command_privmsg = b'P' ∷ b'R' ∷ b'I' ∷ b'V' ∷ b'M' ∷ b'S' ∷ b'G' ∷ []

abbrev pub irc_command_ping : List ℕ
irc_command_ping = b'P' ∷ b'I' ∷ b'N' ∷ b'G' ∷ []

abbrev pub irc_command_join : List ℕ
irc_command_join = b'J' ∷ b'O' ∷ b'I' ∷ b'N' ∷ []

abbrev pub irc_username : List ℕ
irc_username = b'C' ∷ b'a' ∷ b's' ∷ b'i' ∷ b'o' ∷ b'F' ∷ b'X' ∷ b'I' ∷ b'R' ∷ b'C' ∷ []

-- "no ws found"
abbrev pub no_ws_found : List ℕ
no_ws_found = b'n' ∷ b'o' ∷ b' ' ∷ b'w' ∷ b's' ∷ b' ' ∷ b'f' ∷ b'o' ∷ b'u' ∷ b'n' ∷ b'd' ∷ []

-- the eleven bytes from "empty cmd" on: the literal has ten, `behind` is the byte behind it
abbrev pub empty_cmd : ℕ → List ℕ
empty_cmd behind = b'e' ∷ b'm' ∷ b'p' ∷ b't' ∷ b'y' ∷ b' ' ∷ b'c' ∷ b'm' ∷ b'd' ∷ 0 ∷ behind ∷ []

-- "JOIN successful"
abbrev pub join_successful : List ℕ
join_successful =
    b'J' ∷ b'O' ∷ b'I' ∷ b'N' ∷ b' ' ∷ b's' ∷ b'u' ∷ b'c' ∷ b'c' ∷ b'e' ∷ b's' ∷ b's' ∷ b'f' ∷ b'u'
    ∷ b'l' ∷ []

-- `sizeof(messagebuffer)`
abbrev pub message_size : ℕ
message_size = 256

-- the globals of irc.h, the input buffer, and the object log
pub record Irc : Type 0 where
  pub inputbuffer : Mem
  pub messagebuffer : Mem
  pub messagelength : ℕ
  pub printflength : ℕ
  pub log : Objectlog

-- `"<%s> %s"` and `"PONG %s"`
abbrev pub said : List ℕ → List ℕ → List ℕ
said name text = b'<' ∷ (name ++ (b'>' ∷ b' ' ∷ text))

abbrev pub pong : List ℕ → List ℕ
pong args = b'P' ∷ b'O' ∷ b'N' ∷ b'G' ∷ b' ' ∷ args

-- `ui_write_log(page, 0, 0, …)` of these bytes
abbrev pub write_page : ℕ → List ℕ → Irc → Option Irc
write_page page text s =
    Option.map (λ log. record s { log = log }) (ui_write_log page 0 0 text s.log)

-- `MIN(sizeof(messagebuffer), n)`, of the `uint16_t` that holds `n`
abbrev pub clipped : ℕ → ℕ
clipped n = min message_size (n % 2 ^ 16)

-- the formatted line that is logged for the channel
unfoldable pub print_said : List ℕ → List ℕ → Irc → Option Irc
print_said name text s =
    let r = snprintf s.messagebuffer (message_size - 1) (said name text) in
    write_page page_irc_channel (peek r.1 0 (clipped r.0))
      (record s { messagebuffer = r.1; printflength = clipped r.0 })

-- `whitespace[2 + strlen(&whitespace[2]) - 1] = 0x00`
abbrev pub cut_last : ℕ → Mem → Mem
cut_last whitespace m = poke m (whitespace + 1 + strlen m (whitespace + 2)) 0

-- the branch for PRIVMSG, with the memory `m` where the end of the line is cut off
unfoldable pub privmsg_in : Mem → ℕ → ℕ → Irc → Option Irc
privmsg_in m prefix whitespace s = elim (memchr m prefix b'!' (strlen m prefix)) [
  | none ↦ none
  | some prefixend ↦
      let m' = poke m prefixend 0 in
      print_said (string_at m' prefix) (string_at m' (whitespace + 2))
        (record s { inputbuffer = m' })
]

-- the whole branch, behind the search for the space
unfoldable pub privmsg : Option ℕ → ℕ → Irc → Option Irc
privmsg none whitespace s = none
privmsg (some prefix) whitespace s =
    privmsg_in (cut_last whitespace s.inputbuffer) prefix whitespace s

-- the branch for PING
unfoldable pub ping : ℕ → Irc → Irc
ping command_arguments s =
    let r =
      snprintf s.messagebuffer (message_size - 1)
        (pong (string_at s.inputbuffer command_arguments)) in
    record s { messagebuffer = r.1; messagelength = clipped r.0 }

-- what is logged of any other command
unfoldable pub other_command : ℕ → Irc → Option Irc
other_command whitespace s =
    let m = cut_last whitespace s.inputbuffer in
    write_page page_irc_overview
      (peek m (whitespace + 2) ((strlen m (whitespace + 2) + 2 ^ 16 - 1) % 2 ^ 16))
      (record s { inputbuffer = m })

-- `strncasecmp(message.command, literal, strlen(message.command)) == 0`
abbrev pub is_command : Irc → ℕ → List ℕ → Bool
is_command s command literal =
    is_same_case (string_at s.inputbuffer command) literal (strlen s.inputbuffer command)

-- the search for the space behind the first argument, and what is done with it
unfoldable pub with_space : (ℕ → Irc → Option Irc) → ℕ → Irc → Option Irc
with_space act command_arguments s =
    elim (memchr s.inputbuffer command_arguments b' ' (strlen s.inputbuffer command_arguments)) [
      | none ↦ some s
      | some whitespace ↦ act whitespace s
    ]

unfoldable pub irc_parse_command : ℕ → Option ℕ → ℕ → ℕ → Irc → Option Irc
irc_parse_command behind prefix command command_arguments s =
    if strlen s.inputbuffer command == 0
    then write_page page_irc_overview (empty_cmd behind) s
    else if is_command s command irc_command_privmsg
    then with_space (privmsg prefix) command_arguments s
    else if is_command s command irc_command_ping
    then some (ping command_arguments s)
    else if is_command s command irc_command_join
    then write_page page_irc_overview join_successful s
    else with_space other_command command_arguments s

-- `irc_parse_line` from the split into command and arguments on
unfoldable pub split_command : ℕ → Option ℕ → ℕ → Irc → Option Irc
split_command behind prefix start s =
    elim (memchr s.inputbuffer start b' ' (strlen s.inputbuffer start)) [
      | none ↦ write_page page_irc_overview no_ws_found s
      | some whitespace ↦
          irc_parse_command behind prefix start (whitespace + 1)
            (record s { inputbuffer = poke s.inputbuffer whitespace 0 })
    ]

-- its part behind the NUL, for the prefix
unfoldable pub split_prefix : ℕ → ℕ → ℕ → Irc → Option Irc
split_prefix behind start len s =
    if s.inputbuffer start == b':'
    then elim (memchr s.inputbuffer start b' ' len) [
      | none ↦ write_page page_irc_overview no_ws_found s
      | some whitespace ↦
          split_command behind (some (start + 1)) (whitespace + 1)
            (record s { inputbuffer = poke s.inputbuffer whitespace 0 })
    ]
    else split_command behind none start s

-- `irc_parse_line` of the `len` bytes from `start` on, at least one
unfoldable pub irc_parse_line : ℕ → ℕ → ℕ → Irc → Option Irc
irc_parse_line behind start len s =
    split_prefix behind start len
      (record s { inputbuffer = poke s.inputbuffer (start + len - 1) 0 })

-- `"PRIVMSG ##whitequark :%s"`
abbrev pub channel_message : List ℕ → List ℕ
channel_message text =
    irc_command_privmsg
    ++ (b' ' ∷ b'#' ∷ b'#' ∷ b'w' ∷ b'h' ∷ b'i' ∷ b't' ∷ b'e' ∷ b'q' ∷ b'u' ∷ b'a' ∷ b'r' ∷ b'k'
        ∷ b' ' ∷ b':' ∷ text)

-- its second half: the message to send
abbrev pub set_message : List ℕ → Irc → Irc
set_message typed s =
    let r = snprintf s.messagebuffer message_size (channel_message typed) in
    record s { messagebuffer = r.1; messagelength = clipped r.0 }

-- `ui_page_irc_message_submit` of src/ui.c, for the string in the input line of the page
unfoldable pub ui_page_irc_message_submit : List ℕ → Irc → Option Irc
ui_page_irc_message_submit typed s =
    Option.map (set_message typed) (print_said irc_username typed s)
