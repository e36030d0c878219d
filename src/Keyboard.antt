-- ===== src/Keyboard.antt =====
-- The keyboard of src/ui-keyboard.c and the input line of a page. The key codes are gint's, a
-- parameter; `pollevent` gives the event. What a page does on submission, and the display, belong to
-- the caller: the callback is a parameter, and whether `ui_update` is called is a result.

pub mod Chars
pub mod Line
pub mod Text
use fx_ip.Base.{
  Bool, Mem, false, if◌then◌else◌, leb, ltb, negsuc, not, poke, pos, suc, true, zero, ℕ, ℤ, ◌%◌,
  ◌&&◌, ◌+◌, ◌-◌, ◌==◌, ◌^◌, ◌||◌,
}

abbrev pub ui_display_chars : ℕ
ui_display_chars = 21

-- the codes of the keys that the program names
pub record Keys : Type 0 where
  pub key_xot : ℕ
  pub key_tan : ℕ
  pub key_frac : ℕ
  pub key_arrow : ℕ
  pub key_0 : ℕ
  pub key_1 : ℕ
  pub key_3 : ℕ
  pub key_4 : ℕ
  pub key_6 : ℕ
  pub key_7 : ℕ
  pub key_9 : ℕ
  pub key_dot : ℕ
  pub key_exp : ℕ
  pub key_add : ℕ
  pub key_sub : ℕ
  pub key_mul : ℕ
  pub key_div : ℕ
  pub key_leftp : ℕ
  pub key_rightp : ℕ
  pub key_comma : ℕ
  pub key_shift : ℕ
  pub key_alpha : ℕ
  pub key_left : ℕ
  pub key_right : ℕ
  pub key_del : ℕ
  pub key_exe : ℕ
  pub key_exit : ℕ

-- `struct page`, without its callbacks
pub record Page : Type 0 where
  pub key : ℕ
  pub input_enabled : Bool
  pub input_buffer : Mem
  pub input_buffer_size : ℕ
  pub input_offset : ℕ
  pub input_scroll_offset : ℕ
  pub scroll_x : ℕ

pub data Event : Type 0 where
  key_down : ℕ → Event
  key_up : ℕ → Event
  no_key : Event

-- `shift`, `alpha`, `current_page` as an index, and `pages`
pub record Ui : Type 0 where
  pub shift : Bool
  pub alpha : Bool
  pub current_page : ℕ
  pub pages : ℕ → Page

abbrev pub between : ℕ → ℕ → ℕ → Bool
between lo hi x = leb lo x && leb x hi

module _ (k : Keys) where
  -- the character of a key in alpha mode
  unfoldable pub digit_character : ℕ → ℤ
  digit_character keycode =
      if between k.key_7 k.key_9 keycode
      then pos (b'7' + (keycode - k.key_7))
      else if between k.key_4 k.key_6 keycode
      then pos (b'4' + (keycode - k.key_4))
      else if between k.key_1 k.key_3 keycode
      then pos (b'1' + (keycode - k.key_1))
      else if keycode == k.key_0
      then pos b'0'
      else if keycode == k.key_dot
      then pos b'.'
      else if keycode == k.key_add
      then pos b'+'
      else if keycode == k.key_sub
      then pos b'-'
      else if keycode == k.key_mul
      then pos b'*'
      else if keycode == k.key_div
      then pos b'/'
      else if keycode == k.key_leftp
      then pos b'('
      else if keycode == k.key_rightp
      then pos b')'
      else if keycode == k.key_comma
      then pos b','
      else negsuc 0

  -- `character` after the assignments of the other mode; 0: none
  unfoldable pub letter : ℕ → ℕ
  letter keycode =
      if keycode == k.key_exp
      then b'"'
      else if keycode == k.key_dot
      then b' '
      else if keycode == k.key_0
      then b'Z'
      else if between k.key_1 k.key_sub keycode
      then (b'U' + (keycode - k.key_1)) % 256
      else if between k.key_4 k.key_div keycode
      then (b'P' + (keycode - k.key_4)) % 256
      else if between k.key_7 k.key_9 keycode
      then (b'M' + (keycode - k.key_7)) % 256
      else if between k.key_frac k.key_arrow keycode
      then (b'G' + (keycode - k.key_frac)) % 256
      else if between k.key_xot k.key_tan keycode
      then (b'A' + (keycode - k.key_xot)) % 256
      else 0

  unfoldable pub ui_keycode_character : Bool → Bool → ℕ → ℤ
  ui_keycode_character shift alpha keycode =
      if alpha
      then digit_character keycode
      else if not shift && between b'A' b'Z' (letter keycode)
      then pos (letter keycode + (b'a' - b'A'))
      else if letter keycode == 0
      then negsuc 0
      else pos (letter keycode)

  -- horizontal scrolling in the input line
  unfoldable pub scroll_line : ℕ → Page → Page
  scroll_line key p =
      let left =
        if key == k.key_left && not (p.input_scroll_offset == 0)
        then record p { input_scroll_offset = p.input_scroll_offset - 1 }
        else p in
      if key == k.key_right
        && (ltb ui_display_chars left.input_offset
            && ltb left.input_scroll_offset (left.input_offset - ui_display_chars))
      then record left { input_scroll_offset = left.input_scroll_offset + 1 }
      else left

  -- a key that stands for a character
  unfoldable pub type_character : ℤ → Page → Page
  type_character (negsuc n) p = p
  type_character (pos character) p =
      if leb (p.input_offset + 2) p.input_buffer_size
      then record p {
        input_buffer = poke p.input_buffer p.input_offset (character % 256);
        input_offset = p.input_offset + 1;
        input_scroll_offset =
            if ltb ui_display_chars (p.input_offset + 1)
            then p.input_offset + 1 - ui_display_chars
            else p.input_scroll_offset;
      }
      else p

  unfoldable pub delete_character : ℕ → Page → Page
  delete_character key p =
      if key == k.key_del && not (p.input_offset == 0)
      then record p {
        input_buffer = poke p.input_buffer (p.input_offset - 1) 0;
        input_offset = p.input_offset - 1;
        input_scroll_offset =
            if p.input_scroll_offset == 0
            then 0
            else if ltb ui_display_chars (p.input_offset - 1)
            then p.input_offset - 1 - ui_display_chars
            else 0;
      }
      else p

  -- scrolling of the window
  unfoldable pub scroll_window : ℕ → Page → Page
  scroll_window key p =
      if not p.input_enabled || p.input_offset == 0
      then record p {
        scroll_x =
            if key == k.key_right
            then ((if key == k.key_left && not (p.scroll_x == 0)
                  then p.scroll_x - 1
                  else p.scroll_x)
                + 1)
              % 2 ^ 16
            else if key == k.key_left && not (p.scroll_x == 0)
            then p.scroll_x - 1
            else p.scroll_x;
      }
      else p

  -- `memset(m, 0, n)`
  abbrev pub clear : Mem → ℕ → Mem
  clear m n i = if ltb i n then 0 else m i

  -- the page that is chosen by its key, of `n` pages from `i` on
  unfoldable pub select_page : (ℕ → Page) → ℕ → ℕ → ℕ → ℕ → ℕ
  select_page pages key zero i chosen = chosen
  select_page pages key (suc n) i chosen =
      select_page pages key n (i + 1) (if (pages i).key == key then i else chosen)

  module _ {W : Type 0} (input_submit_callback : Page → W → W) where
    unfoldable pub submit_line : ℕ → Page → W → Page × W
    submit_line key p w =
        if key == k.key_exe && not (p.input_offset == 0)
        then (
          record p {
            input_buffer = clear (poke p.input_buffer p.input_offset 0) p.input_offset;
            input_offset = 0;
            input_scroll_offset = 0;
          },
          input_submit_callback (record p { input_buffer = poke p.input_buffer p.input_offset 0 })
              w,
        )
        else (p, w)

    -- what a released key does to the page, and to the world
    unfoldable pub edit_line : Bool → Bool → ℕ → Page → W → Page × W
    edit_line shift alpha key p w =
        if p.input_enabled
        then submit_line key
            (delete_character key
              (type_character (ui_keycode_character shift alpha key) (scroll_line key p)))
            w
        else (p, w)

    -- `ui_handle_keyboard`: its result, whether the display is drawn anew, and the state
    unfoldable pub ui_handle_keyboard : Event → Ui → W → ℤ × Bool × Ui × W
    ui_handle_keyboard no_key ui w = (pos 0, false, ui, w)
    ui_handle_keyboard (key_down key) ui w = (
      pos 0,
      false,
      record ui {
        shift = if key == k.key_shift then true else ui.shift;
        alpha = if key == k.key_alpha then true else ui.alpha;
      },
      w,
    )
    ui_handle_keyboard (key_up key) ui w =
        let shift' = if key == k.key_shift then false else ui.shift in
        let alpha' = if key == k.key_alpha then false else ui.alpha in
        let now = select_page ui.pages key 4 0 ui.current_page in
        let edited = edit_line shift' alpha' key (ui.pages now) w in
        let page' = scroll_window key edited.0 in
        if key == k.key_exit
        then (negsuc 0, false, record ui { shift = shift'; alpha = alpha'; current_page = now }, w)
        else (
          pos 0,
          true,
          record ui {
            shift = shift';
            alpha = alpha';
            current_page = now;
            pages = λ i. if i == now then page' else ui.pages i;
          },
          edited.1,
        )
