-- ===== src/Tests/Logs.antt =====
-- Tests of src/objectlog.c: a log of 16 bytes with two objects, the newest one of three bytes.
use fx_ip.Base.{
  List, [], arith, blit, drop, negsuc, pos, refl, some, ℕ, ℤ, ◌%◌, ◌++◌, ◌+◌, ◌-◌, ◌<◌, ◌^◌, ◌∷◌,
  ◌≡◌, ◌⊎◌,
}
use fx_ip.Objectlog.{
  Objectlog, objectlog_init, objectlog_iterator, objectlog_write_scattered_object, total_len,
}
use fx_ip.Objectlog.Add.{objectlog_write_scattered_object-Holds}
use fx_ip.Objectlog.Format.{flat}
use fx_ip.Objectlog.Index.{objectlog_iterator-oldest, objectlog_iterator-read}
use fx_ip.Objectlog.Object.{Object, last}
use fx_ip.Objectlog.Queue.{Holds}
use fx_ip.Objectlog.Read.{read_fragments}
use fx_ip.Objectlog.Start.{
  objectlog_init-objectlog_write_scattered_object, objectlog_write_scattered_object-refused,
}

abbrev pub two_objects : Objectlog
two_objects = record {
  ring = record {
    cell = blit (λ i. 0) 0 (129 ∷ 7 ∷ 131 ∷ 1 ∷ 2 ∷ 3 ∷ []);
    read_ptr = 0;
    write_ptr = 6;
    size = 16;
  };
  ptr_first = 0;
  ptr_last = 2;
  num_entries = 2;
}

pub older-Object : Object 16 two_objects.ring.cell 0 (7 ∷ []) 2
older-Object = last 1 (omega arith) (omega arith) (omega arith) refl refl (omega arith)

pub newer-Object : Object 16 two_objects.ring.cell 2 (1 ∷ 2 ∷ 3 ∷ []) 4
newer-Object = last 3 (omega arith) (omega arith) (omega arith) refl refl (omega arith)

abbrev pub two_objects-Holds : Holds two_objects ((7 ∷ []) ∷ []) (1 ∷ 2 ∷ 3 ∷ [])
two_objects-Holds = record {
  valid = omega arith;
  not_tiny = omega arith;
  counted = refl;
  front = 2;
  back = 4;
  entries = (2, 0, older-Object, refl, omega arith);
  last_entry = newer-Object;
  first_in = omega arith;
  last_place = refl;
  log_end = refl;
  fits = omega arith;
}

-- a scatter list of ten bytes
abbrev ten_bytes : List (List ℕ)
ten_bytes = (1 ∷ 2 ∷ 3 ∷ 4 ∷ []) ∷ (5 ∷ 6 ∷ 7 ∷ 8 ∷ 9 ∷ 10 ∷ []) ∷ [] ∷ []

-- The bytes go round the end of the storage, and the older object is dropped for them.
objectlog_write_scattered_object-Holds_example :
    (n : ℕ) × (log' : Objectlog) × (objectlog_write_scattered_object two_objects ten_bytes
      ≡ some (0, log'))
    × Holds log' (drop n ((7 ∷ []) ∷ []) ++ ((1 ∷ 2 ∷ 3 ∷ []) ∷ [])) (flat ten_bytes)
    × ((n ≡ 0) ⊎ (16 < 6 + total_len 16 6 10))
objectlog_write_scattered_object-Holds_example =
    objectlog_write_scattered_object-Holds two_objects-Holds ten_bytes (omega arith) (omega arith)
      (omega arith)

objectlog_write_scattered_object-refused_example :
    (log' : Objectlog) × (objectlog_write_scattered_object two_objects
        ((1 ∷ 2 ∷ 3 ∷ 4 ∷ 5 ∷ 6 ∷ 7 ∷ 8 ∷ []) ∷ (flat ten_bytes) ∷ [])
      ≡ some ((16 + 2 ^ 16 - 20) % 2 ^ 16, log'))
    × Holds log' ((7 ∷ []) ∷ []) (1 ∷ 2 ∷ 3 ∷ [])
objectlog_write_scattered_object-refused_example =
    objectlog_write_scattered_object-refused two_objects-Holds
      ((1 ∷ 2 ∷ 3 ∷ 4 ∷ 5 ∷ 6 ∷ 7 ∷ 8 ∷ []) ∷ (flat ten_bytes) ∷ []) (omega arith) (omega arith)

objectlog_iterator-read_example :
    (it : ℤ) × (log' : Objectlog) × (objectlog_iterator two_objects (pos 1) ≡ some (it, log'))
    × (read_fragments 17 log' it ≡ some (1 ∷ 2 ∷ 3 ∷ []))
objectlog_iterator-read_example =
    objectlog_iterator-read two_objects-Holds ((7 ∷ []) ∷ []) (1 ∷ 2 ∷ 3 ∷ []) [] refl

objectlog_iterator-oldest_example :
    objectlog_iterator two_objects (negsuc 1) ≡ some (negsuc 0, two_objects)
objectlog_iterator-oldest_example =
    objectlog_iterator-oldest two_objects-Holds [] (7 ∷ []) ((1 ∷ 2 ∷ 3 ∷ []) ∷ []) refl refl

objectlog_init-objectlog_write_scattered_object_example :
    (log' : Objectlog) × (objectlog_write_scattered_object (objectlog_init (λ i. 0) 16) ten_bytes
      ≡ some (0, log'))
    × Holds log' [] (flat ten_bytes)
objectlog_init-objectlog_write_scattered_object_example =
    objectlog_init-objectlog_write_scattered_object (λ i. 0) 16 ten_bytes (omega arith)
      (omega arith) (λ i lt. refl) (omega arith) (omega arith) (omega arith)
