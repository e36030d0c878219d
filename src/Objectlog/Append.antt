-- ===== src/Objectlog/Append.antt =====
-- A new object behind the newest one.
use fx_ip.Base.{
  List, [], ap, arith, length, length-append, sym, ℕ, ◌%◌, ◌++◌, ◌+◌, ◌<◌, ◌∙◌, ◌∷◌, ◌≡◌, ◌≤◌,
}
use fx_ip.Objectlog.{Objectlog}
use fx_ip.Objectlog.Entries.{Agree, Entries, Entries-Agree, shift}
use fx_ip.Objectlog.Format.{encode}
use fx_ip.Objectlog.Object.{Object, encode-Object}
use fx_ip.Objectlog.Queue.{Holds, Holds-Entries}
use fx_ip.Ring.Bulk.{write_all, write_all-IsValid, write_all-pointers}
use fx_ip.Ring.Place.{window-write_all, write_all_outside}
use fx_ip.Ring.Refine.{mod_distinct, window}

-- the log after the data were stored behind its end
abbrev pub stored : Objectlog → List ℕ → Objectlog
stored log d = record log {
  ring = write_all log.ring (encode log.ring.size 0 log.ring.write_ptr d);
  ptr_last = log.ring.write_ptr;
  num_entries = log.num_entries + 1;
}

module _ {log : Objectlog} {older : List (List ℕ)} {newest : List ℕ} (h : Holds log older newest)
    (d : List ℕ) (some_data : 0 < length d)
    (room_made : h.front + h.back + length (encode log.ring.size 0 log.ring.write_ptr d)
      ≤ log.ring.size) where
  pub kept_size : (stored log d).ring.size ≡ log.ring.size
  kept_size = (write_all-pointers log.ring (encode log.ring.size 0 log.ring.write_ptr d) h.valid).0

  -- the place of the `i`-th byte behind the end
  behind :
      (i : ℕ)
      → (log.ring.write_ptr + i) % log.ring.size
        ≡ (log.ptr_first + (h.front + h.back + i)) % log.ring.size
  behind i =
      ap (λ t. (t + i) % log.ring.size) h.log_end
      ∙ shift log.ring.size log.ptr_first (h.front + h.back) i

  kept_cells :
      Agree log.ring.size log.ring.cell (stored log d).ring.cell log.ptr_first (h.front + h.back)
  kept_cells i lt =
      write_all_outside log.ring (encode log.ring.size 0 log.ring.write_ptr d)
        ((log.ptr_first + i) % log.ring.size) h.valid
        (λ i' lt' e.
          mod_distinct log.ring.size log.ptr_first i (h.front + h.back + i') h.first_in
            (omega arith) (omega arith) (sym e ∙ behind i'))

  older-Entries :
      Entries log.ring.size
        (stored log d).ring.cell
        log.ptr_first
        (older ++ (newest ∷ []))
        (h.front + h.back)
  older-Entries =
      Entries-Agree log.ring.size log.ring.cell (stored log d).ring.cell log.ptr_first
        (older ++ (newest ∷ [])) (h.front + h.back) (Holds-Entries h) kept_cells

  pub new_window :
      window log.ring.size
        (stored log d).ring.cell
        log.ring.write_ptr
        (length (encode log.ring.size 0 log.ring.write_ptr d))
      ≡ encode log.ring.size 0 log.ring.write_ptr d
  new_window =
      window-write_all log.ring (encode log.ring.size 0 log.ring.write_ptr d) h.valid (omega arith)

  pub new_entry :
      Object log.ring.size
        (stored log d).ring.cell
        log.ring.write_ptr
        d
        (length (encode log.ring.size 0 log.ring.write_ptr d))
  new_entry =
      encode-Object log.ring.size (stored log d).ring.cell h.not_tiny
        (length (encode log.ring.size 0 log.ring.write_ptr d)) log.ring.write_ptr d (omega arith)
        h.valid.write_in some_data new_window

  pub stored-Holds : Holds (stored log d) (older ++ (newest ∷ [])) d
  stored-Holds = record {
    valid = write_all-IsValid log.ring (encode log.ring.size 0 log.ring.write_ptr d) h.valid;
    not_tiny = rw kept_size h.not_tiny;
    counted = omega (arith, h.counted, length-append {0} older (newest ∷ []));
    front = h.front + h.back;
    back = length (encode log.ring.size 0 log.ring.write_ptr d);
    entries = rw kept_size older-Entries;
    last_entry = rw kept_size new_entry;
    first_in = rw kept_size h.first_in;
    last_place = rw kept_size h.log_end;
    log_end = rw kept_size (
        (write_all-pointers log.ring (encode log.ring.size 0 log.ring.write_ptr d) h.valid).2
        ∙ behind (length (encode log.ring.size 0 log.ring.write_ptr d)));
    fits = rw kept_size room_made;
  }
