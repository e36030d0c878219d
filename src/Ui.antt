-- ===== src/Ui.antt =====
-- The messages of src/ui.c: what is written to the object log for a page, and how a page finds it
-- again. The drawing itself is I/O: a line that is drawn is a cursor into the log.
-- `ui_objectlog_get_message` is given the global `objectlog`, which it also names: one log here.
use mathlib.Core.Option
pub mod Reading
pub mod Header
pub mod Logged
pub mod Short
use fx_ip.Base.{
  Bool, List, Mem, Option, [], blit, false, if◌then◌else◌, ltb, min, negsuc, none, not, peek, pos,
  some, suc, true, zero, ℕ, ℤ, ◌%◌, ◌&&◌, ◌+◌, ◌-◌, ◌==◌, ◌^◌, ◌∷◌,
}
use fx_ip.Keyboard.{Page, Ui, ui_display_chars}
use fx_ip.Objectlog.{
  Objectlog, objectlog_get_fragment, objectlog_init, objectlog_iterator, objectlog_next,
  objectlog_write_scattered_object,
}

-- `page_type_t`
abbrev pub page_logs : ℕ
page_logs = 0

abbrev pub page_statistics : ℕ
page_statistics = 1

abbrev pub page_irc_overview : ℕ
page_irc_overview = 2

abbrev pub page_irc_channel : ℕ
page_irc_channel = 3

abbrev pub ui_display_lines : ℕ
ui_display_lines = 7

-- a `message_hdr_t`, as its bytes
abbrev pub message_hdr : ℕ → ℕ → ℕ → List ℕ
message_hdr page_id kind channel = page_id ∷ kind ∷ channel ∷ []

-- `sizeof(message_hdr_t)`
abbrev pub hdr_size : ℕ
hdr_size = 3

-- `ui_write_log` of the bytes of `text`; `none`: a loop of the object log ran out of fuel
unfoldable pub ui_write_log : ℕ → ℕ → ℕ → List ℕ → Objectlog → Option Objectlog
ui_write_log page_id kind channel text log =
    Option.map (λ r. r.1)
      (objectlog_write_scattered_object log (message_hdr page_id kind channel ∷ text ∷ [] ∷ []))

-- `ui_init`: a page without an input buffer is one whose buffer has the size 0
unfoldable pub ui_init : Mem → Ui → Ui × Objectlog
ui_init objectlog_storage ui = (
  record ui {
    pages = λ i.
        if ltb i 4
        then record (ui.pages i) {
          input_buffer =
              λ j. if ltb j (ui.pages i).input_buffer_size then 0 else (ui.pages i).input_buffer j;
        }
        else ui.pages i;
  },
  objectlog_init objectlog_storage 2048,
)

-- where a reader stands: the fragment, its next byte, and how many bytes it has left, a `uint8_t`
pub record Cursor : Type 0 where
  pub iter : ℤ
  pub ptr : ℕ
  pub length : ℕ

-- The loop that copies the header: `bytes_read`, and the header, afterwards with the length of the
-- fragment and the place of its data. `none`: the fuel ran out, or there is no fragment to read.
unfoldable pub header_loop : ℕ → Objectlog → ℤ → ℕ → Mem → Option (Mem × ℕ × ℕ × ℕ)
header_loop zero log iter bytes_read hdr = none
header_loop (suc fuel) log iter bytes_read hdr = elim (objectlog_get_fragment log iter) [
  | none ↦ none
  | some r ↦
      let cpylen = min (hdr_size - bytes_read) r.0 in
      let hdr' = blit hdr bytes_read (peek log.ring.cell r.1 cpylen) in
      let later = header_loop fuel log iter (bytes_read + cpylen) hdr' in
      if ltb (bytes_read + cpylen) hdr_size
      then later
      else some (hdr', bytes_read + cpylen, r.0, r.1)
]

-- the cursor behind the header
abbrev pub behind_header : ℤ → ℕ → ℕ × ℕ → Cursor
behind_header iter bytes_read r = record {
  iter = iter;
  ptr = r.1 + bytes_read;
  length = (r.0 + 2 ^ 8 - bytes_read) % 2 ^ 8;
}

-- the fragment that `iter` leads to; `none` where the code returns NULL
abbrev pub next_fragment : Objectlog → ℤ → Option Cursor
next_fragment log (negsuc n) = none
next_fragment log (pos zero) = none
next_fragment log (pos (suc n)) =
    Option.map (λ r. record { iter = pos (suc n); ptr = r.1; length = r.0 })
      (objectlog_get_fragment log (pos (suc n)))

-- one round of the loop that skips `offset` bytes
unfoldable pub skip_bytes : Objectlog → ℕ → Cursor → Option Cursor
skip_bytes log offset c =
    if min c.length offset == c.length
    then next_fragment log (objectlog_next log c.iter)
    else some
        (record c { ptr = c.ptr + min c.length offset; length = c.length - min c.length offset })

-- that loop; the outer `none`: the fuel ran out, the inner one: NULL
unfoldable pub skip_loop : ℕ → Objectlog → ℕ → Cursor → Option (Option Cursor)
skip_loop zero log offset c = none
skip_loop (suc fuel) log offset c =
    let later : Option (Option Cursor) = elim (skip_bytes log offset c) [
      | none ↦ some none
      | some c' ↦ skip_loop fuel log (offset - min c.length offset) c'
    ] in
    if offset == 0 then some (some c) else later

-- what a call of `ui_objectlog_get_message` leaves: the header, the cursor or NULL, and the log
pub record Message : Type 0 where
  pub hdr : Mem
  pub at_text : Option Cursor
  pub log : Objectlog

-- the part behind the iterator
unfoldable pub message_at : Objectlog → ℤ → ℕ → Mem → Option Message
message_at log iter offset hdr = elim (header_loop (suc hdr_size) log iter 0 hdr) [
  | none ↦ none
  | some h ↦
      Option.map (λ c. record { hdr = h.0; at_text = c; log = log })
        (skip_loop (suc (suc log.ring.size)) log offset (behind_header iter h.1 (h.2, h.3)))
]

-- Each round of the first loop that copies a byte brings its end nearer, and each round of the
-- second one ends it or goes to the next fragment.
unfoldable pub ui_objectlog_get_message : Objectlog → ℤ → ℕ → Mem → Option Message
ui_objectlog_get_message log object_idx offset hdr = elim (objectlog_iterator log object_idx) [
  | none ↦ none
  | some (negsuc n, log') ↦ some (record { hdr = hdr; at_text = none; log = log' })
  | some (pos iter, log') ↦ message_at log' (pos iter) offset hdr
]

-- `-i`, for an `i` that is an `unsigned int`
abbrev pub minus : ℕ → ℤ
minus zero = pos 0
minus (suc i) = negsuc i

-- The loop of `ui_render_logs`: the lines that are drawn, from the top of the display down. A line
-- without text is one for which there is no cursor. `none`: a call does not return.
unfoldable pub render_loop :
    ℕ → ℕ → ℕ → ℕ → ℕ → Objectlog → List (Option Cursor) → Option (List (Option Cursor) × Objectlog)
render_loop zero i room page_id scroll_x log drawn = some (drawn, log)
render_loop (suc n) i room page_id scroll_x log drawn =
    let later : Option (List (Option Cursor) × Objectlog) =
      elim (ui_objectlog_get_message log (minus i) scroll_x (λ k. 0xff)) [
        | none ↦ none
        | some m ↦
            let is_shown = m.hdr 0 == page_id in
            render_loop n (i + 1) (if is_shown then room - 1 else room) page_id scroll_x m.log
              (if is_shown then m.at_text ∷ drawn else drawn)
      ] in
    if room == 0 then some (drawn, log) else later

-- `ui_render_logs`, for the page with this index
unfoldable pub ui_render_logs : ℕ → Page → Objectlog → Option (List (Option Cursor) × Objectlog)
ui_render_logs page_id page log =
    render_loop log.num_entries 0
      (if page.input_enabled then ui_display_lines - 1 else ui_display_lines) page_id page.scroll_x
      log []

-- where the part of the input line starts that `ui_update` shows
unfoldable pub scrolled_input : Page → ℕ
scrolled_input page =
    if ltb ui_display_chars page.input_offset
    then min page.input_scroll_offset (page.input_offset - ui_display_chars)
    else 0
