-- ===== src/Irc/Said.antt =====
-- `privmsg` of src/uip/irc.c: a line of the server that says something in the channel.
use fx_ip.Base.{
  List, Mem, [], ap, arith, length, length-append, poke_self, some, string_at, ℕ, ◌++◌, ◌+◌, ◌<◌,
  ◌^◌, ◌∙◌, ◌∷◌, ◌≡◌, ◌≤◌,
}
use fx_ip.Irc.{
  Irc, irc_command_privmsg, irc_parse_command, irc_parse_line, print_said, privmsg, privmsg_in,
  said, write_page,
}
use fx_ip.Irc.Line.{parse_privmsg, privmsg_cut, privmsg_in_lem}
use fx_ip.Irc.Print.{print_said_lem, printed}
use fx_ip.Irc.Split.{
  IsClean, args_length, command_length, cr, irc_parse_line-split, lf, line, line_length,
  space_found, sp1, sp2, sp3, text-strlen, the_source, the_text, word-At, word-strlen,
}
use fx_ip.Irc.Strings.{
  At, At-append, At-cons, Lacks-append, zero-zeros, zeros, zeros-memchr, zeros-string_at,
  zeros-strlen,
}
use fx_ip.Psock.Line.{Lacks}
use fx_ip.Ui.{page_irc_channel}

-- the line `:nick!host PRIVMSG target :text`
abbrev pub privmsg_line : List ℕ → List ℕ → List ℕ → List ℕ → List ℕ
privmsg_line nick host target text = line (nick ++ (b'!' ∷ host)) irc_command_privmsg target text

-- The parts have no NUL, and no byte that ends them.
pub record IsCleanMessage (nick host target text : List ℕ) : Type 0 where
  pub nick_nul : Lacks 0 nick
  pub nick_space : Lacks b' ' nick
  pub nick_bang : Lacks b'!' nick
  pub host_nul : Lacks 0 host
  pub host_space : Lacks b' ' host
  pub target_nul : Lacks 0 target
  pub target_space : Lacks b' ' target
  pub text_nul : Lacks 0 text

module _ (behind : ℕ) (s : Irc) (p : ℕ) (nick host target text : List ℕ)
    (clean : IsCleanMessage nick host target text)
    (stands : At s.inputbuffer p (privmsg_line nick host target text))
    (small : length (privmsg_line nick host target text) < 2 ^ 16) where
  abbrev m : Mem
  m = s.inputbuffer

  abbrev source : List ℕ
  source = nick ++ (b'!' ∷ host)

  whole-IsClean : IsClean source irc_command_privmsg target text
  whole-IsClean = record {
    source_nul =
        Lacks-append 0 nick (b'!' ∷ host) clean.nick_nul
          ((λ e. absurd (omega arith)), clean.host_nul);
    source_space =
        Lacks-append b' ' nick (b'!' ∷ host) clean.nick_space
          ((λ e. absurd (omega arith)), clean.host_space);
    word_nul = omega arith;
    word_space = omega arith;
    target_nul = clean.target_nul;
    target_space = clean.target_space;
    text_nul = clean.text_nul;
  }

  abbrev a1 : ℕ
  a1 = sp1 p source irc_command_privmsg target text

  abbrev a2 : ℕ
  a2 = sp2 p source irc_command_privmsg target text

  abbrev a3 : ℕ
  a3 = sp3 p source irc_command_privmsg target text

  abbrev a4 : ℕ
  a4 = cr p source irc_command_privmsg target text

  abbrev end : ℕ
  end = lf p source irc_command_privmsg target text

  abbrev bang : ℕ
  bang = p + 1 + length nick

  source_length : length source ≡ length nick + 1 + length host
  source_length = omega (arith, length-append {0} nick (b'!' ∷ host))

  sizes :
      (length (line source irc_command_privmsg target text)
        ≡ length source + length target + length text + 14)
      × (end ≡ a4 + 1)
  sizes =
      let a =
        args_length behind s p source irc_command_privmsg target text whole-IsClean stands small in
      let b =
        command_length behind s p source irc_command_privmsg target text whole-IsClean stands
          small in
      let c =
        line_length behind s p source irc_command_privmsg target text whole-IsClean stands small in
      (omega (arith, a, b, c), omega (arith, a, b))

  name : At m (p + 1) source
  name = (the_source behind s p source irc_command_privmsg target text whole-IsClean stands small).1

  the_nick : At m (p + 1) nick × At m bang (b'!' ∷ host)
  the_nick = At-append m (p + 1) nick (b'!' ∷ host) name

  bang_lem : m bang ≡ b'!'
  bang_lem = (At-cons m bang b'!' host the_nick.1).0

  -- the client, with these NULs written into its input buffer
  abbrev with_zeros : List ℕ → Irc
  with_zeros js = record s { inputbuffer = zeros m js }

  word_step :
      irc_parse_command behind (some (p + 1)) (a1 + 1) (a2 + 1) (with_zeros (end ∷ a1 ∷ a2 ∷ []))
      ≡ privmsg (some (p + 1)) a3 (with_zeros (end ∷ a1 ∷ a2 ∷ []))
  word_step =
      parse_privmsg behind (with_zeros (end ∷ a1 ∷ a2 ∷ [])) (some (p + 1)) (a1 + 1) (a2 + 1)
        (word-strlen behind s p source irc_command_privmsg target text whole-IsClean stands small)
        (word-At behind s p source irc_command_privmsg target text whole-IsClean stands small)
      ∙ space_found behind s p source irc_command_privmsg target text whole-IsClean stands small
          (privmsg (some (p + 1)))

  text_step :
      privmsg (some (p + 1)) a3 (with_zeros (end ∷ a1 ∷ a2 ∷ []))
      ≡ privmsg_in (zeros m (end ∷ a1 ∷ a2 ∷ a4 ∷ [])) (p + 1) a3 (with_zeros (end ∷ a1 ∷ a2 ∷ []))
  text_step =
      privmsg_cut behind (with_zeros (end ∷ a1 ∷ a2 ∷ [])) (p + 1) a3 (length text + 1) a4
        (text-strlen behind s p source irc_command_privmsg target text whole-IsClean stands small)
        (omega arith)

  a1_zero : zeros m (end ∷ a1 ∷ a2 ∷ a4 ∷ []) a1 ≡ 0
  a1_zero =
      zero-zeros (zeros m (end ∷ a1 ∷ [])) a1 (a2 ∷ a4 ∷ []) (poke_self (zeros m (end ∷ [])) a1 0)

  a4_zero : zeros m (end ∷ a1 ∷ a2 ∷ a4 ∷ bang ∷ []) a4 ≡ 0
  a4_zero =
      zero-zeros (zeros m (end ∷ a1 ∷ a2 ∷ a4 ∷ [])) a4 (bang ∷ [])
        (poke_self (zeros m (end ∷ a1 ∷ a2 ∷ [])) a4 0)

  -- the name and the text, in the buffer at the end
  nick_string : string_at (zeros m (end ∷ a1 ∷ a2 ∷ a4 ∷ bang ∷ [])) (p + 1) ≡ nick
  nick_string =
      zeros-string_at m (end ∷ a1 ∷ a2 ∷ a4 ∷ bang ∷ []) (p + 1) nick the_nick.0
        (omega (arith, source_length, sizes)) clean.nick_nul
        (poke_self (zeros m (end ∷ a1 ∷ a2 ∷ a4 ∷ [])) bang 0)
        (omega (arith, sizes, source_length, small))

  text_string : string_at (zeros m (end ∷ a1 ∷ a2 ∷ a4 ∷ bang ∷ [])) (a3 + 2) ≡ text
  text_string =
      zeros-string_at m (end ∷ a1 ∷ a2 ∷ a4 ∷ bang ∷ []) (a3 + 2) text
        (the_text behind s p source irc_command_privmsg target text whole-IsClean stands small)
        (omega (arith, source_length, sizes)) clean.text_nul a4_zero (omega (arith, sizes, small))

  name_step :
      privmsg_in (zeros m (end ∷ a1 ∷ a2 ∷ a4 ∷ [])) (p + 1) a3 (with_zeros (end ∷ a1 ∷ a2 ∷ []))
      ≡ print_said nick text (with_zeros (end ∷ a1 ∷ a2 ∷ a4 ∷ bang ∷ []))
  name_step =
      privmsg_in_lem behind (with_zeros (end ∷ a1 ∷ a2 ∷ [])) (zeros m (end ∷ a1 ∷ a2 ∷ a4 ∷ []))
        (p + 1) a3 (length source) bang nick text
        (zeros-strlen m (end ∷ a1 ∷ a2 ∷ a4 ∷ []) (p + 1) source name (omega (arith, sizes))
          whole-IsClean.source_nul
          (ap (zeros m (end ∷ a1 ∷ a2 ∷ a4 ∷ [])) {y = a1} (omega arith) ∙ a1_zero)
          (omega (arith, sizes, small)))
        (zeros-memchr m (end ∷ a1 ∷ a2 ∷ a4 ∷ []) (p + 1) nick the_nick.0
          (omega (arith, source_length, sizes)) (length source) b'!' clean.nick_bang bang_lem
          (omega (arith, source_length, sizes)) (omega (arith, source_length)))
        nick_string text_string

  -- For the line `:nick!host PRIVMSG target :text`, whose parts have no NUL, and no byte that
  -- would end them, irc_parse_line logs the line `<nick> text` for the channel, if it has at most
  -- 254 bytes: that line also stands in messagebuffer afterwards, in the place of what was there,
  -- its length is in printflength, and messagelength stays.
  pub irc_parse_line-privmsg :
      length (said nick text) ≤ 254
      → (m' : Mem) × (irc_parse_line behind p (length (privmsg_line nick host target text)) s
          ≡ write_page page_irc_channel
              (said nick text)
              (printed (said nick text) (record s { inputbuffer = m' })))
  irc_parse_line-privmsg h = (
    zeros m (end ∷ a1 ∷ a2 ∷ a4 ∷ bang ∷ []),
    irc_parse_line-split behind s p source irc_command_privmsg target text whole-IsClean stands
          small
        ∙ word_step
        ∙ text_step
        ∙ name_step
        ∙ print_said_lem nick text (with_zeros (end ∷ a1 ∷ a2 ∷ a4 ∷ bang ∷ [])) h,
  )
