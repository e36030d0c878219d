-- ===== src/Keyboard/Text.antt =====
-- Keys as operations on the text of the input line.
use fx_ip.Base.{
  Bool-cases, List, Mem, [], ap, ap₂, arith, if◌then◌else◌, inl, inr, leb, length, length-append,
  length-peek, not, peek, peek-append, peek_agree, poke, poke_ne, poke_self, pos, refl, sym, take,
  take_all, true, ℕ, ◌%◌, ◌&&◌, ◌++◌, ◌+◌, ◌-◌, ◌<◌, ◌==◌, ◌∙◌, ◌∷◌, ◌≡◌,
}
use fx_ip.Keyboard.{Keys, Page, delete_character, submit_line, type_character}
use fx_ip.Objectlog.Scatter.{take-append}

-- the text of a line
abbrev pub text : Page → List ℕ
text p = peek p.input_buffer 0 p.input_offset

poke_behind : (m : Mem) (n c : ℕ) → peek (poke m n c) 0 n ≡ peek m 0 n
poke_behind m n c = peek_agree (poke m n c) m 0 n (λ j lo hi. poke_ne m n j c (omega arith))

peek_snoc : (m : Mem) (n : ℕ) → peek m 0 (n + 1) ≡ peek m 0 n ++ (m n ∷ [])
peek_snoc m n = peek-append m 0 n 1 ∙ ap (λ i. peek m 0 n ++ (m i ∷ [])) {x = 0 + n} (omega arith)

module _ (k : Keys) (p : Page) where
  -- A character goes behind the text while there is room for it and the NUL.
  text-type_character :
      (c : ℕ)
      → text (type_character k (pos c) p) ≡ (
          if leb (p.input_offset + 2) p.input_buffer_size
          then text p ++ ((c % 256) ∷ [])
          else text p)
  unfolding type_character
  text-type_character c = elim (Bool-cases (leb (p.input_offset + 2) p.input_buffer_size)) [
    | inr e ↦ rw e refl
    | inl e ↦ rw e (
        peek_snoc (poke p.input_buffer p.input_offset (c % 256)) p.input_offset
        ∙ ap₂ (λ t x. t ++ (x ∷ [])) (poke_behind p.input_buffer p.input_offset (c % 256))
            (poke_self p.input_buffer p.input_offset (c % 256)))
  ]

  -- DEL takes the last character away.
  text-delete_character :
      (c : ℕ) (t : List ℕ) → text p ≡ t ++ (c ∷ []) → text (delete_character k k.key_del p) ≡ t
  unfolding delete_character
  text-delete_character c t e =
      let count : p.input_offset ≡ length t + 1 =
        sym (length-peek p.input_buffer 0 p.input_offset)
        ∙ ap length e
        ∙ omega (arith, length-append {0} t (c ∷ [])) in
      let test : (k.key_del == k.key_del && not (p.input_offset == 0)) ≡ true = ground arith in
      let shorter : p.input_offset - 1 ≡ length t = omega arith in
      rw test (
        poke_behind p.input_buffer (p.input_offset - 1) 0
        ∙ ap (peek p.input_buffer 0) shorter
        ∙ sym (
            take_all (length t) (peek p.input_buffer 0 (length t))
              (omega (arith, length-peek p.input_buffer 0 (length t))))
        ∙ sym (
            take-append (length t) (peek p.input_buffer 0 (length t))
              (p.input_buffer (length t) ∷ [])
              (omega (arith, length-peek p.input_buffer 0 (length t))))
        ∙ ap (take (length t))
            (sym (peek_snoc p.input_buffer (length t)) ∙ ap (peek p.input_buffer 0) (sym count) ∙ e)
        ∙ take-append (length t) t (c ∷ []) (omega arith)
        ∙ take_all (length t) t (omega arith))

  -- EXE hands the text to the page's callback, NUL-terminated, and empties the line.
  text-submit_line :
      {W : Type 0} (submit : Page → W → W) (w : W)
      → 0 < p.input_offset
      → (text (submit_line k submit k.key_exe p w).0 ≡ [])
        × ((submit_line k submit k.key_exe p w).1
            ≡ submit (record p { input_buffer = poke p.input_buffer p.input_offset 0 }) w)
        × (text (record p { input_buffer = poke p.input_buffer p.input_offset 0 }) ≡ text p)
  unfolding submit_line
  text-submit_line submit w h =
      let e : (k.key_exe == k.key_exe && not (p.input_offset == 0)) ≡ true = ground arith in
      rw e (refl, refl, poke_behind p.input_buffer p.input_offset 0)

  -- On a line whose text ends with a character: one that is typed goes behind the text where two
  -- places are left, and is ignored otherwise; DEL takes the last character away; EXE hands the
  -- page, with the same text and a 0 behind it, to the callback of the page, and leaves an empty
  -- text.
  pub text_edits :
      {W : Type 0} (submit : Page → W → W) (w : W) (c last : ℕ) (t : List ℕ)
      → text p ≡ t ++ (last ∷ [])
      → (text (type_character k (pos c) p) ≡ (
          if leb (p.input_offset + 2) p.input_buffer_size
          then text p ++ ((c % 256) ∷ [])
          else text p))
        × (text (delete_character k k.key_del p) ≡ t)
        × (text (submit_line k submit k.key_exe p w).0 ≡ [])
        × ((submit_line k submit k.key_exe p w).1
            ≡ submit (record p { input_buffer = poke p.input_buffer p.input_offset 0 }) w)
        × (text (record p { input_buffer = poke p.input_buffer p.input_offset 0 }) ≡ text p)
  text_edits submit w c last t e =
      let submits = text-submit_line submit w (
        omega (
          arith,
          sym (length-peek p.input_buffer 0 p.input_offset) ∙ ap length e,
          length-append {0} t (last ∷ []),
        )) in
      (text-type_character c, text-delete_character last t e, submits.0, submits.1, submits.2)
