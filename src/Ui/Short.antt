-- ===== src/Ui/Short.antt =====
-- `ui_objectlog_get_message` of src/ui.c where a message does not lie in one piece.
use mathlib.Core.Option
use fx_ip.Base.{
  List, Mem, Option, ap, arith, length, peek, pos, refl, some, none, suc, ℕ, ◌+◌, ◌-◌, zero, false,
  true, min, ◌<◌, ◌^◌, ◌∙◌, ◌≡◌, ◌≤◌, blit, ◌==◌, mod_once,
}
use fx_ip.Objectlog.{Objectlog, total_len, fragment_len, objectlog_iterator, objectlog_next}
use fx_ip.Objectlog.Append.{kept_size, stored, stored-Holds}
use fx_ip.Objectlog.Length.{fragments}
use fx_ip.Objectlog.Format.{room}
use fx_ip.Objectlog.Newest.{objectlog_iterator_newest, stored_filler, stored_full}
use fx_ip.Objectlog.Queue.{Holds}
use fx_ip.Objectlog.Read.{fragment_lem, next_more}
use fx_ip.Objectlog.Walk.{at_read}
use fx_ip.Ui.{
  Cursor, Message, header_loop, skip_bytes, skip_loop, ui_objectlog_get_message, ui_write_log,
  message_at,
}
use fx_ip.Ui.Logged.{ui_write_log-Logged}
use fx_ip.Ui.Header.{header_lem}
use fx_ip.Ui.Reading.{cursor}

module _ (log : Objectlog) where
  -- The loop that copies the header stays at an empty fragment.
  header_loop_empty :
      (p : ℕ)
      → p < log.ring.size
      → fragment_len (log.ring.cell p) ≡ 0
      → (fuel : ℕ) (hdr : Mem) → header_loop fuel log (pos p) 0 hdr ≡ none
  unfolding header_loop
  header_loop_empty p a e zero hdr = refl
  header_loop_empty p a e (suc fuel) hdr =
      let no_bytes : min 3 0 ≡ 0 = omega arith in
      rw (fragment_lem log p 0 a e, header_loop, no_bytes) (header_loop_empty p a e fuel hdr)

-- Where the log ends at the last byte of its storage, a message that fits is written, the iterator
-- for the last number finds it, and the loop of ui_objectlog_get_message that copies its header
-- ends for no fuel.
pub ui_write_log_hangs :
    {log : Objectlog} {older : List (List ℕ)} {newest : List ℕ} (h : Holds log older newest)
    (page_id kind channel : ℕ) (text : List ℕ) (fuel : ℕ) (hdr : Mem)
    → 3 + length text + fragments (3 + length text) < 2 ^ 16 - 1
    → h.back + total_len log.ring.size log.ring.write_ptr (3 + length text) ≤ log.ring.size
    → log.ring.write_ptr + 1 ≡ log.ring.size
    → (log' : Objectlog) × (it : ℕ) × (log'' : Objectlog) × (ui_write_log page_id kind channel text
          log
        ≡ some log')
      × (objectlog_iterator log' (pos (log'.num_entries - 1)) ≡ some (pos it, log''))
      × (header_loop fuel log'' (pos it) 0 hdr ≡ none)
ui_write_log_hangs {log} h page_id kind channel text fuel hdr no_wrap fits at_end =
    let l = ui_write_log-Logged h page_id kind channel text no_wrap fits in
    let w : ℕ = l.log2.ring.write_ptr in
    let some_data : 0 < length l.bytes = omega (arith, ap length l.is_message) in
    let same = kept_size l.holds l.bytes some_data l.made in
    let (q, it) = objectlog_iterator_newest (stored-Holds l.holds l.bytes some_data l.made) in
    let empty =
      stored_filler l.holds l.bytes some_data l.made (omega (arith, l.end_kept, l.size_kept)) in
    (
      stored l.log2 l.bytes,
      w,
      at_read (stored l.log2 l.bytes) q,
      l.returns,
      it,
      header_loop_empty (at_read (stored l.log2 l.bytes) q) w
          (omega (arith, same, l.end_kept, l.size_kept)) (omega (arith, empty)) fuel hdr,
    )

module _ (log : Objectlog) where
  -- From a fragment that ends at the end of the storage, the next one starts at 0: the code takes
  -- that for the end.
  skip_round_end :
      (fuel offset p n : ℕ)
      → p < log.ring.size
      → n < 128
      → log.ring.cell p ≡ n
      → p + suc n ≡ log.ring.size
      → 0 < offset
      → n ≤ 3 + offset
      → skip_loop (suc fuel) log offset (cursor log p 3) ≡ some none
  unfolding skip_loop skip_bytes
  skip_round_end fuel offset p n a b e ends positive past =
      let some_offset : (offset == 0) ≡ false = ground arith in
      let m : ℕ = fragment_len (log.ring.cell p) in
      let over : (min (m - 3) offset == m - 3) ≡ true = ground arith in
      let next : objectlog_next log (pos p) ≡ pos 0 =
        next_more log p n a b e
        ∙ ap pos (mod_once (p + suc n) log.ring.size (omega arith) (omega arith) ∙ omega arith) in
      rw (some_offset, over, next) refl

  message_at_end :
      (offset p n : ℕ) (hdr : Mem)
      → p < log.ring.size
      → n < 128
      → 3 ≤ n
      → log.ring.cell p ≡ n
      → p + suc n ≡ log.ring.size
      → 0 < offset
      → n ≤ 3 + offset
      → message_at log (pos p) offset hdr
        ≡ some
            (record { hdr = blit hdr 0 (peek log.ring.cell (p + 1) 3); at_text = none; log = log })
  unfolding message_at
  message_at_end offset p n hdr a b three e ends positive past =
      let m : ℕ = fragment_len (log.ring.cell p) in
      let shown : Option Cursor → Message =
        λ t. record { hdr = blit hdr 0 (peek log.ring.cell (p + 1) 3); at_text = t; log = log } in
      rw (header_lem log p m hdr a refl (omega arith), message_at)
        (ap
            (λ x. Option.map shown (
              skip_loop (suc (suc log.ring.size)) log offset
                (record { iter = pos p; ptr = p + 1 + 3; length = x })))
            {y = m - 3} (omega arith)
          ∙ ap (Option.map shown)
              (skip_round_end (suc log.ring.size) offset p n a b e ends positive past))

-- Where 4 to 128 bytes are left behind the end of the log, a message that fits is written, and
-- ui_objectlog_get_message for the last number gives NULL for every offset above 0 at or behind
-- the end of the first fragment and below the length of the text, although text is left there.
pub ui_write_log_cut :
    {log : Objectlog} {older : List (List ℕ)} {newest : List ℕ} (h : Holds log older newest)
    (page_id kind channel : ℕ) (text : List ℕ) (offset : ℕ) (hdr : Mem)
    → 3 + length text + fragments (3 + length text) < 2 ^ 16 - 1
    → h.back + total_len log.ring.size log.ring.write_ptr (3 + length text) ≤ log.ring.size
    → 4 ≤ log.ring.size - log.ring.write_ptr
    → log.ring.size - log.ring.write_ptr ≤ 128
    → log.ring.size - log.ring.write_ptr ≤ 4 + offset
    → 0 < offset
    → offset < length text
    → (log' : Objectlog) × (m : Message) × (ui_write_log page_id kind channel text log ≡ some log')
      × (ui_objectlog_get_message log' (pos (log'.num_entries - 1)) offset hdr ≡ some m)
      × (m.at_text ≡ none)
unfolding ui_objectlog_get_message
ui_write_log_cut {log} h page_id kind channel text offset hdr no_wrap fits room_low room_high past
      positive inside =
    let l = ui_write_log-Logged h page_id kind channel text no_wrap fits in
    let w : ℕ = l.log2.ring.write_ptr in
    let n : ℕ = room l.log2.ring.size w in
    let size : length l.bytes ≡ 3 + length text = ap length l.is_message ∙ omega arith in
    let same = kept_size l.holds l.bytes (omega (arith, size)) l.made in
    let (q, it) =
      objectlog_iterator_newest (stored-Holds l.holds l.bytes (omega (arith, size)) l.made) in
    let full =
      stored_full l.holds l.bytes (omega (arith, size)) l.made
        (omega (arith, l.end_kept, l.size_kept)) (omega (arith, size, l.end_kept, l.size_kept)) in
    let log3 : Objectlog = at_read (stored l.log2 l.bytes) q in
    (
      stored l.log2 l.bytes,
      record { hdr = blit hdr 0 (peek log3.ring.cell (w + 1) 3); at_text = none; log = log3 },
      l.returns,
      rw (it, ui_objectlog_get_message)
          (message_at_end log3 offset w n hdr (omega (arith, same, l.end_kept, l.size_kept))
            (omega arith) (omega (arith, l.end_kept, l.size_kept)) full
            (omega (arith, same, l.end_kept, l.size_kept)) positive
            (omega (arith, l.end_kept, l.size_kept))),
      refl,
    )
