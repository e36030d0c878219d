-- ===== src/Irc/Ping.antt =====
-- `ping` of src/uip/irc.c: the message for a PING of the server.
use fx_ip.Base.{
  List, Mem, Option, [], ap, arith, blit, false, is_same_case, length, length-append, none, peek,
  poke, poke_self, refl, some, string_at, strlen, true, ℕ, ◌++◌, ◌+◌, ◌==◌, ◌∙◌, ◌∷◌, ◌≡◌, ◌≤◌,
}
use fx_ip.Irc.{
  Irc, irc_command_ping, irc_command_privmsg, irc_parse_command, irc_parse_line, ping, pong,
  split_command, split_prefix,
}
use fx_ip.Irc.Line.{split_command_lem}
use fx_ip.Irc.Print.{clipped_lem, snprintf_lem}
use fx_ip.Irc.Split.{newline, return}
use fx_ip.Irc.Strings.{
  At, At-append, At-cons, At-zeros, Lacks-append, cell-zeros, zero-zeros, zeros, zeros-memchr,
  zeros-string_at, zeros-strlen,
}
use fx_ip.Psock.Line.{Lacks}

ping-not_privmsg : is_same_case irc_command_ping irc_command_privmsg 4 ≡ false
unfolding is_same_case
ping-not_privmsg = refl

ping_matches : is_same_case irc_command_ping irc_command_ping 4 ≡ true
unfolding is_same_case
ping_matches = refl

parse_ping :
    (behind : ℕ) (prefix : Option ℕ) (command args : ℕ) (s : Irc)
    → strlen s.inputbuffer command ≡ 4
    → peek s.inputbuffer command 4 ≡ irc_command_ping
    → irc_parse_command behind prefix command args s ≡ some (ping args s)
unfolding irc_parse_command
parse_ping behind prefix command args s l word = rw (l, word, ping-not_privmsg, ping_matches) refl

-- the client once it has this message to send
abbrev pub to_send : List ℕ → Irc → Irc
to_send text s = record s {
  messagebuffer = blit s.messagebuffer 0 (text ++ (0 ∷ []));
  messagelength = length text;
}

ping_lem :
    (at_args : ℕ) (args : List ℕ) (s : Irc)
    → string_at s.inputbuffer at_args ≡ args
    → length (pong args) ≤ 254
    → ping at_args s ≡ to_send (pong args) s
unfolding ping
ping_lem at_args args s e h =
    rw (e, snprintf_lem s.messagebuffer 254 (pong args) h)
      (ap (λ n. record (to_send (pong args) s) { messagelength = n })
        (clipped_lem (length (pong args)) (omega arith)))

-- what follows the command, and the line `PING args`
abbrev pub rest_of : List ℕ → List ℕ
rest_of args = args ++ (return ∷ [])

abbrev pub ping_line : List ℕ → List ℕ
ping_line args = (irc_command_ping ++ (b' ' ∷ rest_of args)) ++ (newline ∷ [])

module _ (behind : ℕ) (s : Irc) (p : ℕ) (args : List ℕ) (no_nul : Lacks 0 args)
    (stands : At s.inputbuffer p (ping_line args)) where
  abbrev m : Mem
  m = s.inputbuffer

  abbrev whole : List ℕ
  whole = irc_command_ping ++ (b' ' ∷ rest_of args)

  rest_length : length (rest_of args) ≡ length args + 1
  rest_length = omega (arith, length-append {0} args (return ∷ []))

  line_length : length (ping_line args) ≡ 5 + length (rest_of args) + 1
  line_length = omega (arith, length-append {0} whole (newline ∷ []))

  abbrev end : ℕ
  end = p + length whole

  top : At m p whole
  top = (At-append m p whole (newline ∷ []) stands).0

  word : At m p irc_command_ping × At m (p + 4) (b' ' ∷ rest_of args)
  word = At-append m p irc_command_ping (b' ' ∷ rest_of args) top

  rest : (m (p + 4) ≡ b' ') × At m (p + 4 + 1) (rest_of args)
  rest = At-cons m (p + 4) b' ' (rest_of args) word.1

  rest_nul : Lacks 0 (rest_of args)
  rest_nul = Lacks-append 0 args (return ∷ []) no_nul ((λ e. absurd (omega arith)), tt)

  whole_nul : Lacks 0 whole
  whole_nul =
      Lacks-append 0 irc_command_ping (b' ' ∷ rest_of args) (omega arith)
        ((λ e. absurd (omega arith)), rest_nul)

  end_zero : (js : List ℕ) → zeros m (end ∷ js) end ≡ 0
  end_zero js = zero-zeros (poke m end 0) end js (poke_self m end 0)

  -- the client, with these NULs written into its input buffer
  abbrev with_zeros : List ℕ → Irc
  with_zeros js = record s { inputbuffer = zeros m js }

  start :
      irc_parse_line behind p (length (ping_line args)) s
      ≡ split_prefix behind p (length (ping_line args)) (with_zeros (end ∷ []))
  unfolding irc_parse_line
  start =
      ap
        (λ t.
          split_prefix behind p (length (ping_line args)) (record s { inputbuffer = poke m t 0 }))
        (omega (arith, line_length))

  no_prefix :
      split_prefix behind p (length (ping_line args)) (with_zeros (end ∷ []))
      ≡ split_command behind none p (with_zeros (end ∷ []))
  unfolding split_prefix
  no_prefix =
      let first : zeros m (end ∷ []) p ≡ b'P' =
        cell-zeros m p (end ∷ []) (omega arith)
        ∙ (At-cons m p b'P' (b'I' ∷ b'N' ∷ b'G' ∷ []) word.0).0 in
      let not_colon : (zeros m (end ∷ []) p == b':') ≡ false = ground arith in rw not_colon refl

  -- For a line `PING args`, whose parts have no NUL and no newline, and an argument of at most 248
  -- bytes, irc_parse_line sets the message to `PONG args` with the carriage return, and logs nothing.
  pub irc_parse_line-ping :
      length args ≤ 248
      → (m' : Mem) × (irc_parse_line behind p (length (ping_line args)) s
          ≡ some (to_send (pong (rest_of args)) (record s { inputbuffer = m' })))
  irc_parse_line-ping h = (
    zeros m (end ∷ (p + 4) ∷ []),
    start
        ∙ no_prefix
        ∙ split_command_lem behind (with_zeros (end ∷ [])) none p (length whole) (p + 4)
            (zeros-strlen m (end ∷ []) p whole top (omega arith) whole_nul (end_zero [])
              (omega (arith, rest_length, h)))
            (zeros-memchr m (end ∷ []) p irc_command_ping word.0 (omega arith) (length whole) b' '
              (omega arith) rest.0 (omega arith) (omega arith))
        ∙ parse_ping behind none p (p + 4 + 1) (with_zeros (end ∷ (p + 4) ∷ []))
            (zeros-strlen m (end ∷ (p + 4) ∷ []) p irc_command_ping word.0 (omega arith)
              (omega arith) (poke_self (zeros m (end ∷ [])) (p + 4) 0) (omega arith))
            (At-zeros m p irc_command_ping (end ∷ (p + 4) ∷ []) word.0 (omega arith))
        ∙ ap some (
            ping_lem (p + 4 + 1) (rest_of args) (with_zeros (end ∷ (p + 4) ∷ []))
              (zeros-string_at m (end ∷ (p + 4) ∷ []) (p + 4 + 1) (rest_of args) rest.1
                (omega arith) rest_nul
                (ap (zeros m (end ∷ (p + 4) ∷ [])) {y = end} (omega arith)
                  ∙ end_zero ((p + 4) ∷ []))
                (omega (arith, rest_length, h)))
              (omega (arith, rest_length, h))),
  )
