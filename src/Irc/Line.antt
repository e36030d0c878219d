-- ===== src/Irc/Line.antt =====
-- A line of the server that says something in the channel.
use fx_ip.Base.{
  List, Mem, Option, ap, ap₂, arith, memchr, peek, poke, refl, some, string_at, strlen, ℕ, ◌+◌, ◌∙◌,
  ◌≡◌, ◌==◌, true, is_same_case,
}
use fx_ip.Irc.{
  Irc, irc_command_privmsg, irc_parse_command, print_said, privmsg, privmsg_in, split_command,
  split_prefix, with_space,
}

privmsg_matches : is_same_case irc_command_privmsg irc_command_privmsg 7 ≡ true
unfolding is_same_case
privmsg_matches = refl

module _ (behind : ℕ) (s : Irc) where
  -- one step of the parser, for what the string functions give
  pub split_prefix_lem :
      (start len whitespace : ℕ)
      → s.inputbuffer start ≡ b':'
      → memchr s.inputbuffer start b' ' len ≡ some whitespace
      → split_prefix behind start len s
        ≡ split_command behind
            (some (start + 1))
            (whitespace + 1)
            (record s { inputbuffer = poke s.inputbuffer whitespace 0 })
  unfolding split_prefix
  split_prefix_lem start len whitespace colon e =
      let z : (s.inputbuffer start == b':') ≡ true = ground arith in rw (z, e, split_prefix) refl

  pub split_command_lem :
      (prefix : Option ℕ) (start n whitespace : ℕ)
      → strlen s.inputbuffer start ≡ n
      → memchr s.inputbuffer start b' ' n ≡ some whitespace
      → split_command behind prefix start s
        ≡ irc_parse_command behind prefix start
            (whitespace + 1)
            (record s { inputbuffer = poke s.inputbuffer whitespace 0 })
  unfolding split_command
  split_command_lem prefix start n whitespace l e = rw (l, e, split_command) refl

  pub with_space_lem :
      (act : ℕ → Irc → Option Irc) (args n whitespace : ℕ)
      → strlen s.inputbuffer args ≡ n
      → memchr s.inputbuffer args b' ' n ≡ some whitespace
      → with_space act args s ≡ act whitespace s
  unfolding with_space
  with_space_lem act args n whitespace k e = rw (k, e, with_space) refl

  pub parse_privmsg :
      (prefix : Option ℕ) (command args : ℕ)
      → strlen s.inputbuffer command ≡ 7
      → peek s.inputbuffer command 7 ≡ irc_command_privmsg
      → irc_parse_command behind prefix command args s ≡ with_space (privmsg prefix) args s
  unfolding irc_parse_command
  parse_privmsg prefix command args l word = rw (l, word, privmsg_matches) refl

  pub privmsg_in_lem :
      (m : Mem) (prefix whitespace l prefixend : ℕ) (name text : List ℕ)
      → strlen m prefix ≡ l
      → memchr m prefix b'!' l ≡ some prefixend
      → string_at (poke m prefixend 0) prefix ≡ name
      → string_at (poke m prefixend 0) (whitespace + 2) ≡ text
      → privmsg_in m prefix whitespace s
        ≡ print_said name text (record s { inputbuffer = poke m prefixend 0 })
  unfolding privmsg_in
  privmsg_in_lem m prefix whitespace l prefixend name text b c d e =
      rw (b, c, privmsg_in)
        (ap₂ (λ x y. print_said x y (record s { inputbuffer = poke m prefixend 0 })) d e)

  pub privmsg_cut :
      (prefix whitespace n j : ℕ)
      → strlen s.inputbuffer (whitespace + 2) ≡ n
      → whitespace + 1 + n ≡ j
      → privmsg (some prefix) whitespace s ≡ privmsg_in (poke s.inputbuffer j 0) prefix whitespace s
  unfolding privmsg
  privmsg_cut prefix whitespace n j a e =
      ap (λ t. privmsg_in (poke s.inputbuffer t 0) prefix whitespace s)
        (ap (λ t. whitespace + 1 + t) a ∙ e)
