-- ===== src/Irc/Empty.antt =====
-- `irc_parse_line` of src/uip/irc.c for a command that is only shown, and an empty text.
use fx_ip.Base.{
  List, Mem, Option, [], ap, arith, length, length-peek, none, peek, poke, poke_self, refl, some,
  strlen, ℕ, ◌%◌, ◌+◌, ◌-◌, ◌<◌, ◌^◌, ◌∙◌, ◌∷◌, ◌≡◌, false, is_same_case, ◌==◌,
}
use fx_ip.Irc.{
  Irc, irc_command_join, irc_command_ping, irc_command_privmsg, irc_parse_command, irc_parse_line,
  other_command, with_space, write_page,
}
use fx_ip.Irc.Split.{
  IsClean, irc_parse_line-split, lf, line, space_found, sp1, sp2, sp3, text-strlen, word-At,
  word-strlen,
}
use fx_ip.Irc.Strings.{At, strlen_lem, zeros}
use fx_ip.Objectlog.{sum_lens, write_loop, writer}
use fx_ip.Objectlog.Wrapped.{write_loop-IsStuck}
use fx_ip.Ring.{Ring}
use fx_ip.Ui.{page_irc_overview}
use fx_ip.Ui.Logged.{flat_message, message_list}
use fx_ip.Objectlog.Format.{flat}
use fx_ip.Objectlog.Store.{sum_lens_mod}

-- The command is none that the client knows, by the comparison that it makes.
pub record IsUnknown (word : List ℕ) : Type 0 where
  pub some_word : 0 < length word
  pub not_privmsg : is_same_case word irc_command_privmsg (length word) ≡ false
  pub not_ping : is_same_case word irc_command_ping (length word) ≡ false
  pub not_join : is_same_case word irc_command_join (length word) ≡ false

parse_other :
    (behind : ℕ) (prefix : Option ℕ) (command args : ℕ) (word : List ℕ) (s : Irc)
    → IsUnknown word
    → strlen s.inputbuffer command ≡ length word
    → peek s.inputbuffer command (length word) ≡ word
    → irc_parse_command behind prefix command args s ≡ with_space other_command args s
unfolding irc_parse_command
parse_other behind prefix command args word s u l w =
    let shown : (length word == 0) ≡ false = ground (arith, u.some_word) in
    rw (l, shown, w, u.not_privmsg, u.not_ping, u.not_join) refl

-- `strlen(…) - 1` of an empty string, as a `uint16_t`
wrapped : (n : ℕ) × (n ≡ 2 ^ 16 - 1)
wrapped = (65535, refl)

strlen_zero : (m : Mem) (p : ℕ) → m p ≡ 0 → strlen m p ≡ 0
strlen_zero m p h =
    strlen_lem m p [] tt refl (ap m {x = p + 0} {y = p} (omega arith) ∙ h) (omega arith)

other_empty :
    (whitespace : ℕ) (s : Irc)
    → strlen s.inputbuffer (whitespace + 2) ≡ 1
    → other_command whitespace s
      ≡ write_page page_irc_overview
          (peek (poke s.inputbuffer (whitespace + 2) 0) (whitespace + 2) wrapped.0)
          (record s { inputbuffer = poke s.inputbuffer (whitespace + 2) 0 })
unfolding other_command
other_empty whitespace s h =
    let m : Mem = poke s.inputbuffer (whitespace + 2) 0 in
    let cut : whitespace + 1 + strlen s.inputbuffer (whitespace + 2) ≡ whitespace + 2 =
      omega (arith, h) in
    let none_left : (strlen m (whitespace + 2) + 2 ^ 16 - 1) % 2 ^ 16 ≡ wrapped.0 = omega (
      arith,
      strlen_zero m (whitespace + 2) (poke_self s.inputbuffer (whitespace + 2) 0),
      wrapped.1,
    ) in
    ap
      (λ j.
        write_page page_irc_overview
          (peek (poke s.inputbuffer j 0) (whitespace + 2)
            ((strlen (poke s.inputbuffer j 0) (whitespace + 2) + 2 ^ 16 - 1) % 2 ^ 16))
          (record s { inputbuffer = poke s.inputbuffer j 0 }))
      cut
    ∙ ap
        (λ n.
          write_page page_irc_overview (peek m (whitespace + 2) n) (record s { inputbuffer = m }))
        none_left

-- The lengths of a header and of that many bytes add up to 2.
long_message :
    (fuel : ℕ) (ring : Ring) (page_id : ℕ) (text : List ℕ)
    → length text ≡ wrapped.0
    → write_loop fuel
        (writer ring (message_list page_id 0 0 text) (sum_lens 0 (message_list page_id 0 0 text)))
      ≡ none
long_message fuel ring page_id text h =
    let sc : List (List ℕ) = message_list page_id 0 0 text in
    let total : sum_lens 0 sc ≡ (0 + length (flat sc)) % 2 ^ 16 = sum_lens_mod 0 sc (omega arith) in
    let bytes : length (flat sc) ≡ 3 + length text =
      ap length (flat_message page_id 0 0 text) ∙ omega arith in
    write_loop-IsStuck fuel (writer ring sc (sum_lens 0 sc))
      (record { more = refl; short = omega (arith, total, bytes, h, wrapped.1) })

module _ (behind : ℕ) (s : Irc) (p : ℕ) (source word target : List ℕ) (unknown : IsUnknown word)
    (clean : IsClean source word target [])
    (stands : At s.inputbuffer p (line source word target []))
    (small : length (line source word target []) < 2 ^ 16) where
  abbrev m : Mem
  m =
      zeros s.inputbuffer (
        lf p source word target [] ∷ sp1 p source word target [] ∷ sp2 p source word target [] ∷ [])

  abbrev text_at : ℕ
  text_at = sp3 p source word target [] + 2

  -- For the line `:source word target :` with an empty text and a command that the client does not
  -- know, whose parts have no NUL and no space, irc_parse_line hands 65535 bytes to ui_write_log;
  -- and the loop that writes such a message to the object log ends for no fuel, whatever the ring.
  pub irc_parse_line_empty :
      (fuel : ℕ) (ring : Ring)
      → (m' : Mem) × (bytes : List ℕ) × (irc_parse_line behind p
            (length (line source word target []))
            s
          ≡ write_page page_irc_overview bytes (record s { inputbuffer = m' }))
        × (length bytes ≡ 2 ^ 16 - 1)
        × (write_loop fuel (
              writer ring
                (message_list page_irc_overview 0 0 bytes)
                (sum_lens 0 (message_list page_irc_overview 0 0 bytes)))
            ≡ none)
  irc_parse_line_empty fuel ring = (
    poke m text_at 0,
    peek (poke m text_at 0) text_at wrapped.0,
    irc_parse_line-split behind s p source word target [] clean stands small
        ∙ parse_other behind (some (p + 1)) (sp1 p source word target [] + 1)
            (sp2 p source word target [] + 1) word (record s { inputbuffer = m }) unknown
            (word-strlen behind s p source word target [] clean stands small)
            (word-At behind s p source word target [] clean stands small)
        ∙ space_found behind s p source word target [] clean stands small other_command
        ∙ other_empty (sp3 p source word target []) (record s { inputbuffer = m })
            (text-strlen behind s p source word target [] clean stands small ∙ omega arith),
    length-peek (poke m text_at 0) text_at wrapped.0 ∙ wrapped.1,
    long_message fuel ring page_irc_overview (peek (poke m text_at 0) text_at wrapped.0)
        (length-peek (poke m text_at 0) text_at wrapped.0),
  )
