-- ===== src/Objectlog/Add.antt =====
-- `objectlog_write_scattered_object` as an operation on the queue of objects.
use mathlib.Core.Path.{subst}
use fx_ip.Base.{
  List, [], ap₂, arith, drop, false, inl, inr, length, le→ltb, ltb, refl, some, suc, sym, ℕ, ◌++◌,
  ◌+◌, ◌-◌, ◌<◌, ◌^◌, ◌∙◌, ◌∷◌, ◌≡◌, ◌≤◌, ◌⊎◌,
}
use fx_ip.Objectlog.{
  Objectlog, drop_entries, objectlog_write_scattered_object, store_object, sum_lens, total_len,
  write_from,
}
use fx_ip.Objectlog.Append.{stored, stored-Holds}
use fx_ip.Objectlog.Format.{encode, flat}
use fx_ip.Objectlog.Free.{Freed, drop_entries_lem}
use fx_ip.Objectlog.Length.{encode-le-total_len, fragments}
use fx_ip.Objectlog.Queue.{Holds, at_read-Holds, at_read_kept, newest_end}
use fx_ip.Objectlog.Store.{store_object-encode, sum_lens_mod}
use fx_ip.Objectlog.Walk.{at_read}

-- its part behind the first walk, where the loop and the store give these logs
write_from_store :
    (sc : List (List ℕ)) (log_end : ℕ) (log log2 log3 : Objectlog)
    → total_len log.ring.size log_end (sum_lens 0 sc) ≤ log.ring.size
    → drop_entries
        (suc log.num_entries)
        log_end
        (total_len log.ring.size log_end (sum_lens 0 sc))
        log
      ≡ some log2
    → store_object sc (sum_lens 0 sc) log2 ≡ some log3
    → write_from sc log_end log ≡ some (0, log3)
unfolding write_from
write_from_store sc log_end log log2 log3 fits freed stores =
    let small : ltb log.ring.size (total_len log.ring.size log_end (sum_lens 0 sc)) ≡ false =
      le→ltb (total_len log.ring.size log_end (sum_lens 0 sc)) log.ring.size fits in
    rw (small, freed, stores) refl

pub write_from_lem :
    (sc : List (List ℕ)) (log_end n : ℕ) (log log2 log3 : Objectlog)
    → sum_lens 0 sc ≡ n
    → total_len log.ring.size log_end n ≤ log.ring.size
    → drop_entries (suc log.num_entries) log_end (total_len log.ring.size log_end n) log ≡ some log2
    → store_object sc n log2 ≡ some log3
    → write_from sc log_end log ≡ some (0, log3)
write_from_lem sc log_end n log log2 log3 counted fits freed stores =
    write_from_store sc log_end log log2 log3
      (subst (λ t. total_len log.ring.size log_end t ≤ log.ring.size) (sym counted) fits)
      (subst
        (λ t.
          drop_entries (suc log.num_entries) log_end (total_len log.ring.size log_end t) log
          ≡ some log2)
        (sym counted) freed)
      (subst (λ t. store_object sc t log2 ≡ some log3) (sym counted) stores)

module _ {log : Objectlog} {older : List (List ℕ)} {newest : List ℕ} (h : Holds log older newest)
    (sc : List (List ℕ)) (some_data : 0 < length (flat sc))
    (no_wrap : length (flat sc) + fragments (length (flat sc)) < 2 ^ 16 - 1)
    (fits : h.back + total_len log.ring.size log.ring.write_ptr (length (flat sc))
      ≤ log.ring.size) where
  abbrev pub walked : Holds (at_read log log.ring.write_ptr) older newest
  walked = at_read-Holds h log.ring.write_ptr h.valid.write_in

  pub freed :
      Freed
        (at_read log log.ring.write_ptr)
        older
        newest
        (total_len log.ring.size log.ring.write_ptr (length (flat sc)))
        (walked.front + walked.back)
        (drop_entries
          (suc log.num_entries)
          log.ring.write_ptr
          (total_len log.ring.size log.ring.write_ptr (length (flat sc)))
          (at_read log log.ring.write_ptr))
  freed =
      drop_entries_lem (suc log.num_entries) older
        (total_len log.ring.size log.ring.write_ptr (length (flat sc))) walked
        (omega (arith, h.counted))
        (omega (arith, fits, (at_read_kept h log.ring.write_ptr h.valid.write_in).1))

  pub new_fits :
      freed.holds.front
        + freed.holds.back
        + length (encode freed.log'.ring.size 0 freed.log'.ring.write_ptr (flat sc))
      ≤ freed.log'.ring.size
  new_fits =
      let f = freed in
      let same : total_len f.log'.ring.size f.log'.ring.write_ptr (length (flat sc))
          ≡ total_len log.ring.size log.ring.write_ptr (length (flat sc)) =
        ap₂ (λ a b. total_len a b (length (flat sc))) f.size_kept f.end_kept in
      let bound =
        encode-le-total_len f.log'.ring.size f.log'.ring.write_ptr (flat sc) f.holds.not_tiny
          f.holds.valid.write_in no_wrap (rw (same, f.size_kept) (omega arith)) in
      let made = f.room_made in let size = f.size_kept in omega arith

  pub write_returns :
      objectlog_write_scattered_object log sc ≡ some (0, stored freed.log' (flat sc))
  unfolding objectlog_write_scattered_object
  write_returns =
      rw (newest_end h, objectlog_write_scattered_object)
        (write_from_lem sc log.ring.write_ptr (length (flat sc)) (at_read log log.ring.write_ptr)
          freed.log' (stored freed.log' (flat sc)) (sum_lens_mod 0 sc (omega arith) ∙ omega arith)
          (omega arith) freed.returns
          (store_object-encode freed.log' sc freed.holds.valid freed.holds.not_tiny))

  -- For a log that holds a queue of objects, and data, at least one byte, whose length and headers
  -- stay below 65535 together and whose estimate total_len fits the storage beside the newest
  -- object: the write returns 0, within its fuel, and the log then holds the old queue, less some
  -- of its oldest objects but never the newest one, followed by the data; it drops no object
  -- unless the estimate does not fit beside all of them.
  pub objectlog_write_scattered_object-Holds :
      (n : ℕ) × (log' : Objectlog) × (objectlog_write_scattered_object log sc ≡ some (0, log'))
      × Holds log' (drop n older ++ (newest ∷ [])) (flat sc)
      × ((n ≡ 0)
          ⊎ (log.ring.size
              < h.front + h.back + total_len log.ring.size log.ring.write_ptr (length (flat sc))))
  objectlog_write_scattered_object-Holds = (
    freed.dropped,
    stored freed.log' (flat sc),
    write_returns,
    stored-Holds freed.holds (flat sc) some_data new_fits,
    elim freed.needed [
      | inl none_gone ↦ inl none_gone
      | inr tight ↦ inr (omega (arith, at_read_kept h log.ring.write_ptr h.valid.write_in))
    ],
  )
