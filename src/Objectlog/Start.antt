-- ===== src/Objectlog/Start.antt =====
-- The first object of an empty log, and an object that is larger than the storage.
use fx_ip.Base.{
  List, Mem, [], ap, ap₂, arith, dec_lt, false, inr, length, ltb, lt→ltb, mod_once, mod_small, refl,
  some, suc, sym, true, zero, ℕ, ◌%◌, ◌+◌, ◌-◌, ◌<◌, ◌==◌, ◌^◌, ◌∙◌, ◌≡◌, ◌≤◌,
}
use fx_ip.Objectlog.{
  Objectlog, came_round, drop_entries, get_next_entry, is_final, next_loop, objectlog_free_space,
  objectlog_init, objectlog_write_scattered_object, sum_lens, total_len, write_from,
}
use fx_ip.Objectlog.Add.{write_from_lem}
use fx_ip.Objectlog.Append.{stored}
use fx_ip.Objectlog.Format.{encode, flat}
use fx_ip.Objectlog.Free.{stop_at}
use fx_ip.Objectlog.Length.{encode-le-total_len, fragments}
use fx_ip.Objectlog.Object.{encode-Object}
use fx_ip.Objectlog.Queue.{Holds, at_read-Holds, newest_end}
use fx_ip.Objectlog.Store.{store_object-encode, sum_lens_mod}
use fx_ip.Objectlog.Walk.{at_read, next_loop-suc}
use fx_ip.Ring.{init}
use fx_ip.Ring.Bulk.{write_all-IsValid, write_all-pointers}
use fx_ip.Ring.Inv.{IsValid, init-IsValid}
use fx_ip.Ring.Place.{window-write_all}

-- `objectlog_init` on a storage of zeros
record IsFresh (log : Objectlog) : Type 0 where
  valid : IsValid log.ring
  not_tiny : 1 < log.ring.size
  first : log.ptr_first ≡ 0
  last_place : log.ptr_last ≡ 0
  log_end : log.ring.write_ptr ≡ 0
  counted : log.num_entries ≡ 0
  zeros : (i : ℕ) → i < log.ring.size → log.ring.cell i ≡ 0

next_loop_zeros :
    (log : Objectlog) (fuel i : ℕ)
    → IsFresh log
    → i < log.ring.size
    → log.ring.size ≤ fuel + i
    → next_loop fuel 0 (at_read log i) ≡ some (0, at_read log 0)
unfolding next_loop
next_loop_zeros log zero i f lt enough = absurd (omega arith)
next_loop_zeros log (suc fuel) i f lt enough =
    let z = f.zeros i lt in
    next_loop-suc log fuel 0 i 0 f.valid.small (omega arith) (omega arith) (omega arith)
    ∙ elim (dec_lt (i + 1) log.ring.size) [
      | yes inside ↦
          let q = mod_small (i + 1) log.ring.size inside in
          let on : came_round 0 i ((i + 1) % log.ring.size) ≡ false = ground arith in
          let open' : is_final (log.ring.cell i) ≡ false = ground arith in
          rw (on, open')
            (ap (λ t. next_loop fuel 0 (at_read log t)) q
              ∙ next_loop_zeros log fuel (i + 1) f inside (omega arith))
      | no end ↦
          let q = mod_once (i + 1) log.ring.size (omega arith) (omega arith) in
          let back : (i + 1) % log.ring.size ≡ 0 = omega arith in
          let round : came_round 0 i ((i + 1) % log.ring.size) ≡ true =
            ground (arith, f.not_tiny) in
          rw round (ap₂ (λ x y. some (x, at_read log y)) f.first back)
    ]

fresh_end :
    {log : Objectlog} → IsFresh log → get_next_entry log log.ptr_last ≡ some (0, at_read log 0)
unfolding get_next_entry
fresh_end {log} f =
    ap (get_next_entry log) f.last_place
    ∙ next_loop_zeros log log.ring.size 0 f (omega (arith, f.not_tiny)) (omega arith)

fresh_stored :
    {log : Objectlog} (d : List ℕ)
    → IsFresh log
    → 0 < length d
    → length (encode log.ring.size 0 log.ring.write_ptr d) ≤ log.ring.size
    → Holds (stored log d) [] d
fresh_stored {log} d f some_data fits =
    let bytes = encode log.ring.size 0 log.ring.write_ptr d in
    let after = write_all-pointers log.ring bytes f.valid in
    record {
      valid = write_all-IsValid log.ring bytes f.valid;
      not_tiny = rw after.0 f.not_tiny;
      counted = omega (arith, f.counted);
      front = 0;
      back = length bytes;
      entries = refl;
      last_entry = rw after.0 (
          encode-Object log.ring.size (stored log d).ring.cell f.not_tiny (length bytes)
            log.ring.write_ptr d (omega arith) f.valid.write_in some_data
            (window-write_all log.ring bytes f.valid fits));
      first_in = omega (arith, f.first, after.0, f.not_tiny);
      last_place = rw after.0 (
          f.log_end
          ∙ sym (
              mod_small (log.ptr_first + 0) log.ring.size (omega (arith, f.first, f.not_tiny))
              ∙ omega (arith, f.first)));
      log_end =
          rw after.0 (after.2 ∙ ap (λ t. t % log.ring.size) (omega (arith, f.first, f.log_end)));
      fits = rw after.0 (omega arith);
    }

objectlog_init-IsFresh :
    (storage : Mem) (size : ℕ)
    → 1 < size
    → size < 2 ^ 16
    → ((i : ℕ) → i < size → storage i ≡ 0)
    → IsFresh (objectlog_init storage size)
unfolding objectlog_init
objectlog_init-IsFresh storage size h k z = record {
  valid = init-IsValid storage size (omega arith) k;
  not_tiny = unfold init in h;
  first = refl;
  last_place = refl;
  log_end = unfold init in refl;
  counted = refl;
  zeros = unfold init in z;
}

at_read-IsFresh : {log : Objectlog} → IsFresh log → IsFresh (at_read log 0)
at_read-IsFresh f = record {
  valid = record {
    small = f.valid.small;
    read_in = omega (arith, f.not_tiny);
    write_in = f.valid.write_in;
  };
  not_tiny = f.not_tiny;
  first = f.first;
  last_place = f.last_place;
  log_end = f.log_end;
  counted = f.counted;
  zeros = f.zeros;
}

fresh_drop :
    (fuel log_end total : ℕ) {log : Objectlog}
    → IsFresh log
    → drop_entries (suc fuel) log_end total log ≡ some log
unfolding drop_entries
fresh_drop fuel log_end total {log} f =
    let same : (log.ptr_first == log.ptr_last) ≡ true = ground (arith, f.first, f.last_place) in
    stop_at (ltb (objectlog_free_space log log_end) total) (log.ptr_first == log.ptr_last) _ _
      (inr same)

module _ {log : Objectlog} (f : IsFresh log) (sc : List (List ℕ)) (some_data : 0 < length (flat sc))
    (no_wrap : length (flat sc) + fragments (length (flat sc)) < 2 ^ 16 - 1)
    (fits : total_len log.ring.size 0 (length (flat sc)) ≤ log.ring.size) where
  -- The first object is stored, and is then the only one.
  objectlog_write_scattered_object-first :
      (log' : Objectlog) × (objectlog_write_scattered_object log sc ≡ some (0, log'))
      × Holds log' [] (flat sc)
  unfolding objectlog_write_scattered_object
  objectlog_write_scattered_object-first =
      let g = at_read-IsFresh f in
      let same = ap (λ p. total_len log.ring.size p (length (flat sc))) f.log_end in
      let bound =
        encode-le-total_len log.ring.size log.ring.write_ptr (flat sc) f.not_tiny f.valid.write_in
          no_wrap (rw f.log_end fits) in
      (
        stored (at_read log 0) (flat sc),
        rw (fresh_end f, objectlog_write_scattered_object)
            (write_from_lem sc 0 (length (flat sc)) (at_read log 0) (at_read log 0)
              (stored (at_read log 0) (flat sc)) (sum_lens_mod 0 sc (omega arith) ∙ omega arith)
              fits (fresh_drop log.num_entries 0 _ g)
              (store_object-encode (at_read log 0) sc g.valid g.not_tiny)),
        fresh_stored (flat sc) g some_data (omega arith),
      )

-- On a storage of zeros, of 2 to 65535 bytes, the first object after objectlog_init is stored, if
-- it has a byte at least, its length and headers stay below 65535 together, and its estimate is at
-- most the size: the result is 0, and the log holds this object alone.
pub objectlog_init-objectlog_write_scattered_object :
    (storage : Mem) (size : ℕ) (sc : List (List ℕ))
    → 1 < size
    → size < 2 ^ 16
    → ((i : ℕ) → i < size → storage i ≡ 0)
    → 0 < length (flat sc)
    → length (flat sc) + fragments (length (flat sc)) < 2 ^ 16 - 1
    → total_len size 0 (length (flat sc)) ≤ size
    → (log' : Objectlog) × (objectlog_write_scattered_object (objectlog_init storage size) sc
        ≡ some (0, log'))
      × Holds log' [] (flat sc)
unfolding objectlog_init init
objectlog_init-objectlog_write_scattered_object storage size sc h k z some_data no_wrap fits =
    objectlog_write_scattered_object-first (objectlog_init-IsFresh storage size h k z) sc some_data
      no_wrap fits

module _ {log : Objectlog} {older : List (List ℕ)} {newest : List ℕ}
    (h : Holds log older newest) where
  -- For a log that holds a queue of objects, data of less than 2 ^ 16 bytes whose estimate
  -- total_len is above the size of the storage are refused: the result is the size less the
  -- estimate, modulo 2 ^ 16, and the log still holds the queue.
  pub objectlog_write_scattered_object-refused :
      (sc : List (List ℕ))
      → length (flat sc) < 2 ^ 16
      → log.ring.size < total_len log.ring.size log.ring.write_ptr (length (flat sc))
      → (log' : Objectlog) × (objectlog_write_scattered_object log sc
          ≡ some (
            (log.ring.size + 2 ^ 16 - total_len log.ring.size log.ring.write_ptr (length (flat sc)))
                % 2 ^ 16,
            log',
          ))
        × Holds log' older newest
  unfolding write_from objectlog_write_scattered_object
  objectlog_write_scattered_object-refused sc small large =
      let n : sum_lens 0 sc ≡ length (flat sc) = sum_lens_mod 0 sc (omega arith) ∙ omega arith in
      let big =
        lt→ltb log.ring.size (total_len log.ring.size log.ring.write_ptr (length (flat sc)))
          large in
      (
        at_read log log.ring.write_ptr,
        rw (newest_end h, objectlog_write_scattered_object) (rw (n, big) refl),
        at_read-Holds h log.ring.write_ptr h.valid.write_in,
      )
