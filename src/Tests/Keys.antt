-- ===== src/Tests/Keys.antt =====
-- Tests of src/ui-keyboard.c: a page with a buffer of eight bytes that holds the text AB.
use fx_ip.Base.{[], arith, blit, false, poke, pos, refl, true, ◌+◌, ◌∷◌, ◌≡◌}
use fx_ip.Keyboard.{
  Keys, Page, Ui, delete_character, key_up, submit_line, type_character, ui_handle_keyboard,
}
use fx_ip.Keyboard.Line.{Edits, IsLine, ui_handle_keyboard-IsLine}
use fx_ip.Keyboard.Text.{text, text_edits}

-- key codes of which the rows of digits are consecutive
abbrev keys : Keys
keys = record {
  key_xot = 61;
  key_tan = 66;
  key_frac = 51;
  key_arrow = 56;
  key_0 = 11;
  key_1 = 21;
  key_3 = 23;
  key_4 = 31;
  key_6 = 33;
  key_7 = 41;
  key_9 = 43;
  key_dot = 12;
  key_exp = 13;
  key_add = 24;
  key_sub = 25;
  key_mul = 34;
  key_div = 35;
  key_leftp = 53;
  key_rightp = 54;
  key_comma = 55;
  key_shift = 81;
  key_alpha = 71;
  key_left = 85;
  key_right = 95;
  key_del = 44;
  key_exe = 15;
  key_exit = 74;
}

abbrev page : Page
page = record {
  key = 94;
  input_enabled = true;
  input_buffer = blit (λ i. 0) 0 (b'A' ∷ b'B' ∷ []);
  input_buffer_size = 8;
  input_offset = 2;
  input_scroll_offset = 0;
  scroll_x = 0;
}

abbrev ui : Ui
ui = record { shift = true; alpha = false; current_page = 3; pages = λ i. page }

page-IsLine : IsLine page
page-IsLine = record {
  fits = omega arith;
  chars = λ i lt. ground arith;
  zeros = λ i le lt. ground arith;
  scrolled = omega arith;
}

ui_handle_keyboard-IsLine_example :
    Edits page ((ui_handle_keyboard keys (λ p w. w + 1) (key_up 15) ui 0).2.pages 3)
ui_handle_keyboard-IsLine_example =
    ui_handle_keyboard-IsLine keys (record { row_7 = refl; row_4 = refl; row_1 = refl })
      (λ p w. w + 1) (key_up 15) ui 0 (λ i on. page-IsLine) 3 refl

text_edits_example :
    (text (type_character keys (pos b'C') page) ≡ b'A' ∷ b'B' ∷ b'C' ∷ [])
    × (text (delete_character keys 44 page) ≡ b'A' ∷ [])
    × (text (submit_line keys (λ p w. w + 1) 15 page 0).0 ≡ [])
    × ((submit_line keys (λ p w. w + 1) 15 page 0).1 ≡ 0 + 1)
    × (text (record page { input_buffer = poke page.input_buffer 2 0 }) ≡ b'A' ∷ b'B' ∷ [])
text_edits_example = text_edits keys page (λ p w. w + 1) 0 b'C' b'B' (b'A' ∷ []) refl
