-- ===== src/Irc/Split.antt =====
-- A line of the server with a prefix, a command, one argument and a text: how the parser splits it.
use fx_ip.Base.{
  List, Mem, Option, [], ap, arith, length, length-append, peek, poke, poke_self, some, strlen, ℕ,
  ◌++◌, ◌+◌, ◌<◌, ◌^◌, ◌∙◌, ◌∷◌, ◌≡◌,
}
use fx_ip.Irc.{Irc, irc_parse_command, irc_parse_line, split_command, split_prefix, with_space}
use fx_ip.Irc.Line.{split_command_lem, split_prefix_lem, with_space_lem}
use fx_ip.Irc.Strings.{
  At, At-append, At-cons, At-zeros, Lacks-append, cell-zeros, zero-zeros, zeros, zeros-memchr,
  zeros-strlen,
}
use fx_ip.Psock.Line.{Lacks}

abbrev pub return : ℕ
return = 13

abbrev pub newline : ℕ
newline = 10

abbrev pub args : List ℕ → List ℕ → List ℕ
args target text = target ++ (b' ' ∷ b':' ∷ (text ++ (return ∷ [])))

abbrev pub command : List ℕ → List ℕ → List ℕ → List ℕ
command word target text = word ++ (b' ' ∷ args target text)

-- the line `:source word target :text`
abbrev pub line : List ℕ → List ℕ → List ℕ → List ℕ → List ℕ
line source word target text =
    (b':' ∷ source) ++ (b' ' ∷ (command word target text ++ (newline ∷ [])))

-- The parts have no NUL, and no byte that ends them.
pub record IsClean (source word target text : List ℕ) : Type 0 where
  pub source_nul : Lacks 0 source
  pub source_space : Lacks b' ' source
  pub word_nul : Lacks 0 word
  pub word_space : Lacks b' ' word
  pub target_nul : Lacks 0 target
  pub target_space : Lacks b' ' target
  pub text_nul : Lacks 0 text

-- the places of the bytes that end the parts, for a line at `p`
module _ (p : ℕ) (source word target text : List ℕ) where
  abbrev pub sp1 : ℕ
  sp1 = p + length (b':' ∷ source)

  abbrev pub sp2 : ℕ
  sp2 = sp1 + 1 + length word

  abbrev pub sp3 : ℕ
  sp3 = sp2 + 1 + length target

  abbrev pub cr : ℕ
  cr = sp3 + 2 + length text

  abbrev pub lf : ℕ
  lf = sp1 + 1 + length (command word target text)

module _ (behind : ℕ) (s : Irc) (p : ℕ) (source word target text : List ℕ)
    (clean : IsClean source word target text)
    (stands : At s.inputbuffer p (line source word target text))
    (small : length (line source word target text) < 2 ^ 16) where
  abbrev m : Mem
  m = s.inputbuffer

  abbrev a1 : ℕ
  a1 = sp1 p source word target text

  abbrev a2 : ℕ
  a2 = sp2 p source word target text

  abbrev a3 : ℕ
  a3 = sp3 p source word target text

  abbrev end : ℕ
  end = lf p source word target text

  pub args_length : length (args target text) ≡ length target + 3 + length text
  args_length = omega (
    arith,
    length-append {0} target (b' ' ∷ b':' ∷ (text ++ (return ∷ []))),
    length-append {0} text (return ∷ []),
  )

  pub line_length :
      length (line source word target text)
      ≡ length source + length word + length (args target text) + 4
  line_length = omega (
    arith,
    length-append {0} (b':' ∷ source) (b' ' ∷ (command word target text ++ (newline ∷ []))),
    length-append {0} (command word target text) (newline ∷ []),
    length-append {0} word (b' ' ∷ args target text),
  )

  text_length : length (text ++ (return ∷ [])) ≡ length text + 1
  text_length = omega (arith, length-append {0} text (return ∷ []))

  pub command_length :
      length (command word target text) ≡ length word + 1 + length (args target text)
  command_length = omega (arith, length-append {0} word (b' ' ∷ args target text))

  top : At m p (b':' ∷ source) × At m a1 (b' ' ∷ (command word target text ++ (newline ∷ [])))
  top = At-append m p (b':' ∷ source) (b' ' ∷ (command word target text ++ (newline ∷ []))) stands

  rest : (m a1 ≡ b' ') × At m (a1 + 1) (command word target text ++ (newline ∷ []))
  rest = At-cons m a1 b' ' (command word target text ++ (newline ∷ [])) top.1

  whole_command : At m (a1 + 1) (command word target text)
  whole_command = (At-append m (a1 + 1) (command word target text) (newline ∷ []) rest.1).0

  the_word : At m (a1 + 1) word × At m a2 (b' ' ∷ args target text)
  the_word = At-append m (a1 + 1) word (b' ' ∷ args target text) whole_command

  whole_args : (m a2 ≡ b' ') × At m (a2 + 1) (args target text)
  whole_args = At-cons m a2 b' ' (args target text) the_word.1

  aim : At m (a2 + 1) target × At m a3 (b' ' ∷ b':' ∷ (text ++ (return ∷ [])))
  aim = At-append m (a2 + 1) target (b' ' ∷ b':' ∷ (text ++ (return ∷ []))) whole_args.1

  pub sp3_lem : m a3 ≡ b' '
  sp3_lem = (At-cons m a3 b' ' (b':' ∷ (text ++ (return ∷ []))) aim.1).0

  whole_text : At m (a3 + 2) (text ++ (return ∷ []))
  whole_text =
      ap (λ q. peek m q (length (text ++ (return ∷ [])))) (omega arith)
      ∙ (At-cons m (a3 + 1) b':' (text ++ (return ∷ []))
          (At-cons m a3 b' ' (b':' ∷ (text ++ (return ∷ []))) aim.1).1).1

  pub the_text : At m (a3 + 2) text
  the_text = (At-append m (a3 + 2) text (return ∷ []) whole_text).0

  pub the_source : (m p ≡ b':') × At m (p + 1) source
  the_source = At-cons m p b':' source top.0

  -- the client, with these NULs written into its input buffer
  abbrev with_zeros : List ℕ → Irc
  with_zeros js = record s { inputbuffer = zeros m js }

  start :
      irc_parse_line behind p (length (line source word target text)) s
      ≡ split_prefix behind p (length (line source word target text)) (with_zeros (end ∷ []))
  unfolding irc_parse_line
  start =
      ap
        (λ t.
          split_prefix behind p (length (line source word target text))
            (record s { inputbuffer = poke m t 0 }))
        (omega (arith, line_length, command_length))

  prefix_step :
      split_prefix behind p (length (line source word target text)) (with_zeros (end ∷ []))
      ≡ split_command behind (some (p + 1)) (a1 + 1) (with_zeros (end ∷ a1 ∷ []))
  prefix_step =
      split_prefix_lem behind (with_zeros (end ∷ [])) p (length (line source word target text)) a1
        (cell-zeros m p (end ∷ []) (omega arith) ∙ the_source.0)
        (zeros-memchr m (end ∷ []) p (b':' ∷ source) top.0 (omega arith)
          (length (line source word target text)) b' '
          ((λ e. absurd (omega arith)), clean.source_space) rest.0 (omega arith)
          (omega (arith, line_length, command_length)))

  args_nul : Lacks 0 (args target text)
  args_nul = Lacks-append 0 target (b' ' ∷ b':' ∷ (text ++ (return ∷ []))) clean.target_nul (
    (λ e. absurd (omega arith)),
    (
      (λ e. absurd (omega arith)),
      Lacks-append 0 text (return ∷ []) clean.text_nul ((λ e. absurd (omega arith)), tt),
    ),
  )

  whole_nul : Lacks 0 (command word target text)
  whole_nul =
      Lacks-append 0 word (b' ' ∷ args target text) clean.word_nul
        ((λ e. absurd (omega arith)), args_nul)

  pub lf_zero : (js : List ℕ) → zeros m (end ∷ js) end ≡ 0
  lf_zero js = zero-zeros (poke m end 0) end js (poke_self m end 0)

  command_step :
      split_command behind (some (p + 1)) (a1 + 1) (with_zeros (end ∷ a1 ∷ []))
      ≡ irc_parse_command behind (some (p + 1)) (a1 + 1) (a2 + 1) (with_zeros (end ∷ a1 ∷ a2 ∷ []))
  command_step =
      split_command_lem behind (with_zeros (end ∷ a1 ∷ [])) (some (p + 1)) (a1 + 1)
        (length (command word target text)) a2
        (zeros-strlen m (end ∷ a1 ∷ []) (a1 + 1) (command word target text) whole_command
          (omega arith) whole_nul (lf_zero (a1 ∷ []))
          (omega (arith, line_length, command_length, small)))
        (zeros-memchr m (end ∷ a1 ∷ []) (a1 + 1) word the_word.0 (omega (arith, command_length))
          (length (command word target text)) b' ' clean.word_space whole_args.0
          (omega (arith, command_length)) (omega (arith, command_length)))

  -- The line is split where its parts end.
  pub irc_parse_line-split :
      irc_parse_line behind p (length (line source word target text)) s
      ≡ irc_parse_command behind (some (p + 1)) (a1 + 1) (a2 + 1) (with_zeros (end ∷ a1 ∷ a2 ∷ []))
  irc_parse_line-split = start ∙ prefix_step ∙ command_step

  pub word-strlen : strlen (zeros m (end ∷ a1 ∷ a2 ∷ [])) (a1 + 1) ≡ length word
  word-strlen =
      zeros-strlen m (end ∷ a1 ∷ a2 ∷ []) (a1 + 1) word the_word.0 (omega (arith, command_length))
        clean.word_nul (poke_self (zeros m (end ∷ a1 ∷ [])) a2 0)
        (omega (arith, line_length, small))

  pub word-At : At (zeros m (end ∷ a1 ∷ a2 ∷ [])) (a1 + 1) word
  word-At = At-zeros m (a1 + 1) word (end ∷ a1 ∷ a2 ∷ []) the_word.0 (omega (arith, command_length))

  pub space_found :
      (act : ℕ → Irc → Option Irc)
      → with_space act (a2 + 1) (with_zeros (end ∷ a1 ∷ a2 ∷ []))
        ≡ act a3 (with_zeros (end ∷ a1 ∷ a2 ∷ []))
  space_found act =
      with_space_lem behind (with_zeros (end ∷ a1 ∷ a2 ∷ [])) act (a2 + 1)
        (length (args target text)) a3
        (zeros-strlen m (end ∷ a1 ∷ a2 ∷ []) (a2 + 1) (args target text) whole_args.1
          (omega (arith, command_length)) args_nul
          (ap (zeros m (end ∷ a1 ∷ a2 ∷ [])) {y = end} (omega (arith, command_length))
            ∙ lf_zero (a1 ∷ a2 ∷ []))
          (omega (arith, line_length, small)))
        (zeros-memchr m (end ∷ a1 ∷ a2 ∷ []) (a2 + 1) target aim.0
          (omega (arith, command_length, args_length)) (length (args target text)) b' '
          clean.target_space sp3_lem (omega (arith, command_length, args_length))
          (omega (arith, args_length)))

  pub text-strlen : strlen (zeros m (end ∷ a1 ∷ a2 ∷ [])) (a3 + 2) ≡ length text + 1
  text-strlen =
      zeros-strlen m (end ∷ a1 ∷ a2 ∷ []) (a3 + 2) (text ++ (return ∷ [])) whole_text
        (omega (arith, command_length, args_length, text_length))
        (Lacks-append 0 text (return ∷ []) clean.text_nul ((λ e. absurd (omega arith)), tt))
        (ap (zeros m (end ∷ a1 ∷ a2 ∷ [])) {y = end}
            (omega (arith, command_length, args_length, text_length))
          ∙ lf_zero (a1 ∷ a2 ∷ []))
        (omega (arith, line_length, args_length, text_length, small))
      ∙ text_length
