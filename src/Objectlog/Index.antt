-- ===== src/Objectlog/Index.antt =====
-- `objectlog_iterator` finds the objects of the log by their number.
use mathlib.Core.Option
use mathlib.Core.Path.{subst}
use fx_ip.Base.{
  List, Mem, Option, [], ap, arith, false, leb, length, length-append, negsuc, pos, refl, some, suc,
  sym, true, ℕ, ℤ, ◌%◌, ◌++◌, ◌+◌, ◌<◌, ◌^◌, ◌∙◌, ◌∷◌, ◌≡◌, ◌≤◌,
}
use fx_ip.Objectlog.{Objectlog, iterator_loop, objectlog_get_object_size, objectlog_iterator}
use fx_ip.Objectlog.Entries.{Entries}
use fx_ip.Objectlog.Object.{Object}
use fx_ip.Objectlog.Queue.{Holds, Holds-Entries}
use fx_ip.Objectlog.Read.{read_fragments, read_fragments-Object, size_loop-Object}
use fx_ip.Objectlog.Walk.{Object-pos, at_read, get_next_entry_lem}

-- the place of an object that a walk over entries found
pub record Found (log : Objectlog) (d : List ℕ) (result : Option (ℤ × Objectlog)) : Type 0 where
  pub place : ℕ
  pub bytes : ℕ
  pub scratch : ℕ
  pub returns : result ≡ some (pos place, at_read log scratch)
  pub object : Object log.ring.size log.ring.cell place d bytes
  pub bounded : bytes ≤ log.ring.size

Entries-pos :
    (size : ℕ) (m : Mem) (p : ℕ) (xs : List (List ℕ)) (d : List ℕ) (ys : List (List ℕ)) (k : ℕ)
    → Entries size m p (xs ++ (d ∷ ys)) k
    → 0 < k
Entries-pos size m p [] d ys k e = omega (arith, Object-pos e.2, e.4)
Entries-pos size m p (x ∷ xs) d ys k e = omega (arith, Object-pos e.2, e.4)

iterator_walk :
    (log : Objectlog) (p : ℕ) (xs : List (List ℕ)) (d : List ℕ) (ys : List (List ℕ)) (k : ℕ)
    → log.ring.size < 2 ^ 16
    → p < log.ring.size
    → k ≤ log.ring.size
    → Entries log.ring.size log.ring.cell p (xs ++ (d ∷ ys)) k
    → Found log d (iterator_loop (length xs) p log)
unfolding iterator_loop
iterator_walk log p [] d ys k h lt fits e = record {
  place = p;
  bytes = e.0;
  scratch = log.ring.read_ptr;
  returns = refl;
  object = e.2;
  bounded = omega (arith, e.4);
}
iterator_walk log p (x ∷ xs) d ys k h lt fits e =
    let q = (p + e.0) % log.ring.size in
    let later = Entries-pos log.ring.size log.ring.cell q xs d ys e.1 e.3 in
    let f = iterator_walk (at_read log q) q xs d ys e.1 h (omega arith) (omega (arith, e.4)) e.3 in
    record {
      place = f.place;
      bytes = f.bytes;
      scratch = f.scratch;
      returns =
          rw
            (
              get_next_entry_lem log h e.2 lt (omega (arith, e.4))
                  (λ z. absurd (omega (arith, e.4))),
              iterator_loop,
            )
            f.returns;
      object = f.object;
      bounded = f.bounded;
    }

module _ {log : Objectlog} {older : List (List ℕ)} {newest : List ℕ} (h : Holds log older newest)
    (xs : List (List ℕ)) (d : List ℕ) (ys : List (List ℕ))
    (split : older ++ (newest ∷ []) ≡ xs ++ (d ∷ ys)) where
  walk_to : Found log d (iterator_loop (length xs) log.ptr_first log)
  walk_to =
      iterator_walk log log.ptr_first xs d ys (h.front + h.back) h.valid.small h.first_in h.fits (
        subst (λ z. Entries log.ring.size log.ring.cell log.ptr_first z (h.front + h.back)) split
          (Holds-Entries h))

  split_length : length xs + suc (length ys) ≡ log.num_entries
  split_length = omega (
    arith,
    ap length split,
    length-append {0} xs (d ∷ ys),
    length-append {0} older (newest ∷ []),
    h.counted,
  )

  from_front :
      objectlog_iterator log (pos (length xs)) ≡ iterator_loop (length xs) log.ptr_first log
  unfolding objectlog_iterator
  from_front =
      let a : leb log.num_entries (length xs) ≡ false = ground (arith, split_length) in rw a refl

  from_back :
      0 < length xs
      → objectlog_iterator log (negsuc (length ys)) ≡ iterator_loop (length xs) log.ptr_first log
  unfolding objectlog_iterator
  from_back some_older =
      let a : leb log.num_entries (suc (length ys)) ≡ false = ground (arith, split_length) in
      rw a (ap (λ n. iterator_loop n log.ptr_first log) (omega (arith, split_length)))

  -- For a log that holds a queue of objects, the iterator for the number of an object, from the
  -- front, is at its first fragment: a reader that takes fragments by objectlog_get_fragment and
  -- objectlog_next until the end gets exactly the data of that object.
  pub objectlog_iterator-read :
      (it : ℤ) × (log' : Objectlog) × (objectlog_iterator log (pos (length xs)) ≡ some (it, log'))
      × (read_fragments (log.ring.size + 1) log' it ≡ some d)
  objectlog_iterator-read = (
    pos walk_to.place,
    at_read log walk_to.scratch,
    from_front ∙ walk_to.returns,
    read_fragments-Object (at_read log walk_to.scratch) walk_to.object (log.ring.size + 1)
        (omega (arith, walk_to.bounded)),
  )

  -- Counted from the back, by -1 for the newest object, it is the same, for all but the oldest object.
  pub objectlog_iterator-back :
      0 < length xs
      → objectlog_iterator log (negsuc (length ys)) ≡ objectlog_iterator log (pos (length xs))
  objectlog_iterator-back some_older = from_back some_older ∙ sym from_front

  -- In a log that holds a queue of objects, the negative index of the oldest object, counted from
  -- -1 for the newest, is refused: the result is -1.
  pub objectlog_iterator-oldest :
      length xs ≡ 0 → objectlog_iterator log (negsuc (length ys)) ≡ some (negsuc 0, log)
  unfolding objectlog_iterator
  objectlog_iterator-oldest none_older =
      let a : leb log.num_entries (suc (length ys)) ≡ true = ground (arith, split_length) in
      rw a refl

  -- For a log that holds a queue of objects, the size of the object of a number, from the front,
  -- is the length of its data modulo 2 ^ 16.
  pub objectlog_get_object_size-length :
      (log' : Objectlog) × (objectlog_get_object_size log (pos (length xs))
        ≡ some (pos (length d % 2 ^ 16), log'))
  unfolding objectlog_get_object_size
  objectlog_get_object_size-length = (
    at_read log walk_to.scratch,
    rw (from_front ∙ walk_to.returns, objectlog_get_object_size)
        (ap (Option.map (λ n. (n, at_read log walk_to.scratch))) (
          size_loop-Object (at_read log walk_to.scratch) walk_to.object (suc log.ring.size) 0
            (omega (arith, walk_to.bounded))
          ∙ ap (λ n. some (pos (n % 2 ^ 16))) (omega arith))),
  )
