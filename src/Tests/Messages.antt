-- ===== src/Tests/Messages.antt =====
-- Tests of src/ui.c: messages in logs of sixteen bytes.
use fx_ip.Base.{List, [], arith, blit, drop, none, pos, refl, some, ℕ, ◌++◌, ◌-◌, ◌∷◌, ◌≡◌, inr}
use fx_ip.Objectlog.{Objectlog, objectlog_iterator}
use fx_ip.Objectlog.Object.{Object, last}
use fx_ip.Objectlog.Queue.{Holds}
use fx_ip.Tests.Logs.{two_objects, two_objects-Holds}
use fx_ip.Ui.{Message, header_loop, message_hdr, ui_objectlog_get_message, ui_write_log}
use fx_ip.Ui.Logged.{Shows, ui_write_log-Shows}
use fx_ip.Ui.Short.{ui_write_log_cut, ui_write_log_hangs}

abbrev text : List ℕ
text = 72 ∷ 105 ∷ []

ui_write_log-Shows_example :
    (log' : Objectlog) × (n : ℕ) × (ui_write_log 3 0 0 text two_objects ≡ some log')
    × Holds log' (drop n ((7 ∷ []) ∷ []) ++ ((1 ∷ 2 ∷ 3 ∷ []) ∷ [])) (message_hdr 3 0 0 ++ text)
    × Shows 3 0 0
        (105 ∷ [])
        (ui_objectlog_get_message log' (pos (log'.num_entries - 1)) 1 (λ i. 0xff))
ui_write_log-Shows_example =
    ui_write_log-Shows two_objects-Holds 3 0 0 text 1 (λ i. 0xff) (omega arith) (omega arith)
      (omega arith) (inr (omega arith))

-- an object of seven bytes, and a newest one behind it, up to `w`
abbrev seven : List ℕ
seven = 1 ∷ 2 ∷ 3 ∷ 4 ∷ 5 ∷ 6 ∷ 7 ∷ []

abbrev nearly_full : ℕ → List ℕ → Objectlog
nearly_full w newest = record {
  ring = record {
    cell = blit (λ i. 0) 0 (135 ∷ (seven ++ newest));
    read_ptr = 0;
    write_ptr = w;
    size = 16;
  };
  ptr_first = 0;
  ptr_last = 8;
  num_entries = 2;
}

abbrev six : List ℕ
six = 11 ∷ 12 ∷ 13 ∷ 14 ∷ 15 ∷ 16 ∷ []

abbrev up_to_15 : Objectlog
up_to_15 = nearly_full 15 (134 ∷ six)

first-Object : Object 16 up_to_15.ring.cell 0 seven 8
first-Object = last 7 (omega arith) (omega arith) (omega arith) refl refl (omega arith)

six-Object : Object 16 up_to_15.ring.cell 8 six 7
six-Object = last 6 (omega arith) (omega arith) (omega arith) refl refl (omega arith)

abbrev up_to_15-Holds : Holds up_to_15 (seven ∷ []) six
up_to_15-Holds = record {
  valid = omega arith;
  not_tiny = omega arith;
  counted = refl;
  front = 8;
  back = 7;
  entries = (8, 0, first-Object, refl, omega arith);
  last_entry = six-Object;
  first_in = omega arith;
  last_place = refl;
  log_end = refl;
  fits = omega arith;
}

ui_write_log_hangs_example :
    (log' : Objectlog) × (it : ℕ) × (log'' : Objectlog) × (ui_write_log 0 0 0 text up_to_15
      ≡ some log')
    × (objectlog_iterator log' (pos (log'.num_entries - 1)) ≡ some (pos it, log''))
    × (header_loop 1000 log'' (pos it) 0 (λ i. 0xff) ≡ none)
ui_write_log_hangs_example =
    ui_write_log_hangs up_to_15-Holds 0 0 0 text 1000 (λ i. 0xff) (omega arith) (omega arith)
      (omega arith)

abbrev up_to_11 : Objectlog
up_to_11 = nearly_full 11 (130 ∷ 8 ∷ 9 ∷ [])

older-Object : Object 16 up_to_11.ring.cell 0 seven 8
older-Object = last 7 (omega arith) (omega arith) (omega arith) refl refl (omega arith)

two-Object : Object 16 up_to_11.ring.cell 8 (8 ∷ 9 ∷ []) 3
two-Object = last 2 (omega arith) (omega arith) (omega arith) refl refl (omega arith)

abbrev up_to_11-Holds : Holds up_to_11 (seven ∷ []) (8 ∷ 9 ∷ [])
up_to_11-Holds = record {
  valid = omega arith;
  not_tiny = omega arith;
  counted = refl;
  front = 8;
  back = 3;
  entries = (8, 0, older-Object, refl, omega arith);
  last_entry = two-Object;
  first_in = omega arith;
  last_place = refl;
  log_end = refl;
  fits = omega arith;
}

-- The letter at offset 1 is the one behind the end of the storage.
ui_write_log_cut_example :
    (log' : Objectlog) × (m : Message) × (ui_write_log 0 0 0 text up_to_11 ≡ some log')
    × (ui_objectlog_get_message log' (pos (log'.num_entries - 1)) 1 (λ i. 0xff) ≡ some m)
    × (m.at_text ≡ none)
ui_write_log_cut_example =
    ui_write_log_cut up_to_11-Holds 0 0 0 text 1 (λ i. 0xff) (omega arith) (omega arith)
      (omega arith) (omega arith) (omega arith) (omega arith) (omega arith)
