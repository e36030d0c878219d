-- ===== src/Keyboard/Line.antt =====
-- The input line is a NUL-terminated text in its buffer.
use mathlib.Core.Path.{subst}
use fx_ip.Base.{
  Bool, Bool-cases, arith, dec_le, false, if◌then◌else◌, inl, inr, leb, ltb, not, pos, refl, sym,
  true, ℕ, ℤ, ◌&&◌, ◌+◌, ◌-◌, ◌<◌, ◌==◌, ◌||◌, ◌∙◌, ◌≡◌, ◌≤◌,
}
use fx_ip.Keyboard.{
  Event, Keys, Page, Ui, delete_character, edit_line, key_down, key_up, no_key, scroll_line,
  scroll_window, select_page, submit_line, type_character, ui_display_chars, ui_handle_keyboard,
  ui_keycode_character,
}
use fx_ip.Keyboard.Chars.{IsChar, Layout, typed, ui_keycode_character-IsChar, untyped}

-- The text has `input_offset` bytes, and zeros follow it up to the end of the buffer; the window on it
-- is not scrolled past its end.
pub record IsLine (p : Page) : Type 0 where
  pub fits : p.input_offset < p.input_buffer_size
  pub chars : (i : ℕ) → i < p.input_offset → 0 < p.input_buffer i
  pub zeros : (i : ℕ) → p.input_offset ≤ i → i < p.input_buffer_size → p.input_buffer i ≡ 0
  pub scrolled : p.input_scroll_offset ≤ p.input_offset - ui_display_chars

-- A step leaves such a line, in the same buffer, and writes inside the buffer only.
pub record Edits (p p' : Page) : Type 0 where
  pub line : IsLine p'
  pub same_size : p'.input_buffer_size ≡ p.input_buffer_size
  pub same_enabled : p'.input_enabled ≡ p.input_enabled
  pub outside : (i : ℕ) → p.input_buffer_size ≤ i → p'.input_buffer i ≡ p.input_buffer i

Edits-refl : (p : Page) → IsLine p → Edits p p
Edits-refl p h = record { line = h; same_size = refl; same_enabled = refl; outside = λ i le. refl }

Edits-trans : {p q r : Page} → Edits p q → Edits q r → Edits p r
Edits-trans a b = record {
  line = b.line;
  same_size = b.same_size ∙ a.same_size;
  same_enabled = b.same_enabled ∙ a.same_enabled;
  outside = λ i le. b.outside i (omega (arith, a.same_size)) ∙ a.outside i le;
}

module _ (k : Keys) (p : Page) (h : IsLine p) where
  -- a line with another window
  rescrolled :
      (n : ℕ)
      → n ≤ p.input_offset - ui_display_chars
      → Edits p (record p { input_scroll_offset = n })
  rescrolled n le = record {
    line = record { fits = h.fits; chars = h.chars; zeros = h.zeros; scrolled = le };
    same_size = refl;
    same_enabled = refl;
    outside = λ i lt. refl;
  }

  -- a byte typed behind the text
  typed-Edits : (c : ℕ) → 0 < c → c < 256 → Edits p (type_character k (pos c) p)
  unfolding type_character
  typed-Edits c pos_c small = elim (dec_le (p.input_offset + 2) p.input_buffer_size) [
    | no full ↦
        let e : leb (p.input_offset + 2) p.input_buffer_size ≡ false = ground arith in
        rw e (Edits-refl p h)
    | yes room ↦
        let e : leb (p.input_offset + 2) p.input_buffer_size ≡ true = ground arith in
        rw e (record {
          line = record {
            fits = omega arith;
            chars = λ i lt. ground (arith, h.chars i);
            zeros = λ i le lt. ground (arith, h.zeros i);
            scrolled = ground (arith, h.scrolled);
          };
          same_size = refl;
          same_enabled = refl;
          outside = λ i le. ground arith;
        })
  ]

  type_character-Edits : (c : ℤ) → IsChar c → Edits p (type_character k c p)
  unfolding type_character
  type_character-Edits c (typed n a b) = typed-Edits n a b
  type_character-Edits c (untyped n) = Edits-refl p h

  -- the last byte of the text replaced by 0
  delete_character-Edits : (key : ℕ) → Edits p (delete_character k key p)
  unfolding delete_character
  delete_character-Edits key = elim (Bool-cases (key == k.key_del && not (p.input_offset == 0))) [
    | inr e ↦ rw e (Edits-refl p h)
    | inl e ↦ rw e (record {
      line = record {
        fits = omega (arith, h.fits);
        chars = λ i lt. ground (arith, h.chars i);
        zeros = λ i le lt. ground (arith, h.zeros i);
        scrolled = ground (arith, h.scrolled);
      };
      same_size = refl;
      same_enabled = refl;
      outside = λ i le. ground (arith, h.fits);
    })
  ]

  scroll_left :
      (key : ℕ)
      → Edits p (
          if key == k.key_left && not (p.input_scroll_offset == 0)
          then record p { input_scroll_offset = p.input_scroll_offset - 1 }
          else p)
  scroll_left key = elim (Bool-cases (key == k.key_left && not (p.input_scroll_offset == 0))) [
    | inl e ↦ rw e (rescrolled (p.input_scroll_offset - 1) (omega (arith, h.scrolled)))
    | inr e ↦ rw e (Edits-refl p h)
  ]

  scroll_right :
      (key : ℕ)
      → Edits p (
          if key == k.key_right
            && (ltb ui_display_chars p.input_offset
                && ltb p.input_scroll_offset (p.input_offset - ui_display_chars))
          then record p { input_scroll_offset = p.input_scroll_offset + 1 }
          else p)
  scroll_right key =
      elim (Bool-cases (
        key == k.key_right
        && (ltb ui_display_chars p.input_offset
            && ltb p.input_scroll_offset (p.input_offset - ui_display_chars)))) [
              | inl e ↦ rw e (rescrolled (p.input_scroll_offset + 1) (ground arith))
              | inr e ↦ rw e (Edits-refl p h)
            ]

  -- the text is gone, and zeros are left
  submit_line-Edits :
      {W : Type 0} (submit : Page → W → W) (key : ℕ) (w : W)
      → Edits p (submit_line k submit key p w).0
  unfolding submit_line
  submit_line-Edits submit key w =
      elim (Bool-cases (key == k.key_exe && not (p.input_offset == 0))) [
        | inr e ↦ rw e (Edits-refl p h)
        | inl e ↦ rw e (record {
          line = record {
            fits = omega (arith, h.fits);
            chars = λ i lt. absurd (omega arith);
            zeros = λ i le lt. ground (arith, h.zeros i);
            scrolled = omega arith;
          };
          same_size = refl;
          same_enabled = refl;
          outside = λ i le. ground (arith, h.fits);
        })
      ]

  scroll_window-Edits : (key : ℕ) → Edits p (scroll_window k key p)
  unfolding scroll_window
  scroll_window-Edits key = elim (Bool-cases (not p.input_enabled || p.input_offset == 0)) [
    | inr e ↦ rw e (Edits-refl p h)
    | inl e ↦ rw e (record {
      line = record { fits = h.fits; chars = h.chars; zeros = h.zeros; scrolled = h.scrolled };
      same_size = refl;
      same_enabled = refl;
      outside = λ i le. refl;
    })
  ]

scroll_line-Edits : (k : Keys) (key : ℕ) (p : Page) → IsLine p → Edits p (scroll_line k key p)
unfolding scroll_line
scroll_line-Edits k key p h =
    let left = scroll_left k p h key in
    Edits-trans left (
      scroll_right k
        (if key == k.key_left && not (p.input_scroll_offset == 0)
          then record p { input_scroll_offset = p.input_scroll_offset - 1 }
          else p)
        left.line key)

module _ (k : Keys) (l : Layout k) {W : Type 0} (submit : Page → W → W) where
  edit_line-Edits :
      (shift alpha : Bool) (key : ℕ) (p : Page) (w : W)
      → IsLine p
      → Edits p (edit_line k submit shift alpha key p w).0
  unfolding edit_line
  edit_line-Edits shift alpha key p w h = elim (Bool-cases p.input_enabled) [
    | inr e ↦
        subst (λ b. Edits p (if b then edited shift alpha key p w else (p, w)).0) (sym e)
          (Edits-refl p h)
    | inl e ↦
        let scrolled = scroll_line-Edits k key p h in
        let c = ui_keycode_character k shift alpha key in
        let more =
          type_character-Edits k (scroll_line k key p) scrolled.line c
            (ui_keycode_character-IsChar k l shift alpha key) in
        let less =
          delete_character-Edits k (type_character k c (scroll_line k key p)) more.line key in
        let done =
          submit_line-Edits k (delete_character k key (type_character k c (scroll_line k key p)))
            less.line submit key w in
        subst (λ b. Edits p (if b then edited shift alpha key p w else (p, w)).0) (sym e)
          (Edits-trans (Edits-trans (Edits-trans scrolled more) less) done)
  ]
    where
      edited : Bool → Bool → ℕ → Page → W → Page × W
      edited shift alpha key p w =
          submit_line k submit key
            (delete_character k key
              (type_character k (ui_keycode_character k shift alpha key) (scroll_line k key p)))
            w

  -- the pages that take input have a line
  abbrev pub AllLines : (ℕ → Page) → Type 0
  AllLines pages = (i : ℕ) → (pages i).input_enabled ≡ true → IsLine (pages i)

  edited_page :
      (shift alpha : Bool) (key : ℕ) (p : Page) (w : W)
      → IsLine p
      → Edits p (scroll_window k key (edit_line k submit shift alpha key p w).0)
  edited_page shift alpha key p w h =
      let edits = edit_line-Edits shift alpha key p w h in
      Edits-trans edits
        (scroll_window-Edits k (edit_line k submit shift alpha key p w).0 edits.line key)

  put_page :
      (pages : ℕ → Page) (now i : ℕ) (page' : Page)
      → IsLine (pages i)
      → (i ≡ now → Edits (pages i) page')
      → Edits (pages i) (if i == now then page' else pages i)
  put_page pages now i page' h same = elim (Bool-cases (i == now)) [
    | inl e ↦ rw e (same (ground arith))
    | inr e ↦ rw e (Edits-refl (pages i) h)
  ]

  -- Every event keeps the input lines, where the codes of 7 and 9, 4 and 6, 1 and 3 are two apart:
  -- if, for each page that takes input, the buffer holds input_offset bytes other than 0 and zeros
  -- behind them, at least one, and its window is not scrolled past the end, the same is true after
  -- ui_handle_keyboard, in buffers of the same size, and no byte behind a buffer is changed.
  pub ui_handle_keyboard-IsLine :
      (event : Event) (ui : Ui) (w : W)
      → AllLines ui.pages
      → (i : ℕ) → (ui.pages i).input_enabled ≡ true
      → Edits (ui.pages i) ((ui_handle_keyboard k submit event ui w).2.pages i)
  unfolding ui_handle_keyboard
  ui_handle_keyboard-IsLine no_key ui w h i on = Edits-refl (ui.pages i) (h i on)
  ui_handle_keyboard-IsLine (key_down key) ui w h i on = Edits-refl (ui.pages i) (h i on)
  ui_handle_keyboard-IsLine (key_up key) ui w h i on = elim (Bool-cases (key == k.key_exit)) [
    | inl e ↦ rw e (Edits-refl (ui.pages i) (h i on))
    | inr e ↦
        let now = select_page k ui.pages key 4 0 ui.current_page in
        rw e (
          put_page ui.pages now i _ (h i on) (λ same.
            subst
              (λ j. Edits (ui.pages i) (
                scroll_window k key
                  (edit_line k submit (if key == k.key_shift then false else ui.shift)
                    (if key == k.key_alpha then false else ui.alpha) key (ui.pages j) w).0))
              same
              (edited_page (if key == k.key_shift then false else ui.shift)
                (if key == k.key_alpha then false else ui.alpha) key (ui.pages i) w (h i on))))
  ]
