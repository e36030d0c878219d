-- ===== src/Objectlog/Newest.antt =====
-- The newest object of a log: where the iterator finds it, and its first fragment.
use fx_ip.Base.{
  List, Mem, [], ap, arith, dec_lt, drop, false, leb, length, mod_small, pos, some, suc, sym, take,
  ℕ, ◌%◌, ◌++◌, ◌+◌, ◌-◌, ◌<◌, ◌^◌, ◌∙◌, ◌∷◌, ◌≡◌, ◌≤◌, min,
}
use fx_ip.Objectlog.{Objectlog, fragment_len, iterator_loop, objectlog_iterator}
use fx_ip.Objectlog.Append.{new_window, stored}
use fx_ip.Objectlog.Entries.{Entries, shift}
use fx_ip.Objectlog.Format.{encode, encode_filler, header, room}
use fx_ip.Objectlog.Length.{encode_full, encode_last, header_last}
use fx_ip.Objectlog.Queue.{Holds, back_pos}
use fx_ip.Objectlog.Walk.{at_read, get_next_entry_lem}
use fx_ip.Objectlog.Window.{window_cons}
use fx_ip.Ring.Refine.{window}

walk_over :
    (log : Objectlog) (p : ℕ) (xs : List (List ℕ)) (k : ℕ)
    → log.ring.size < 2 ^ 16
    → p < log.ring.size
    → k < log.ring.size
    → Entries log.ring.size log.ring.cell p xs k
    → (q : ℕ) × (iterator_loop (length xs) p log
        ≡ some (pos ((p + k) % log.ring.size), at_read log q))
unfolding iterator_loop
walk_over log p [] k h lt fits e = (
  log.ring.read_ptr,
  ap (λ t. some (pos t, log))
      (sym (mod_small (p + k) log.ring.size (omega (arith, e)) ∙ omega (arith, e))),
)
walk_over log p (x ∷ xs) k h lt fits e =
    let q = (p + e.0) % log.ring.size in
    let (r, later) = walk_over (at_read log q) q xs e.1 h (omega arith) (omega (arith, e.4)) e.3 in
    (
      r,
      rw
          (
            get_next_entry_lem log h e.2 lt (omega (arith, e.4)) (λ z. absurd (omega (arith, e.4))),
            iterator_loop,
          )
          (later
            ∙ ap (λ t. some (pos t, at_read log r))
                (shift log.ring.size p e.0 e.1
                  ∙ ap (λ t. (p + t) % log.ring.size) (omega (arith, e.4)))),
    )

-- The iterator for the last number is at the newest object.
pub objectlog_iterator_newest :
    {log : Objectlog} {older : List (List ℕ)} {newest : List ℕ}
    → Holds log older newest
    → (q : ℕ) × (objectlog_iterator log (pos (log.num_entries - 1))
        ≡ some (pos log.ptr_last, at_read log q))
unfolding objectlog_iterator
objectlog_iterator_newest {log} {older} h =
    let (q, walk) =
      walk_over log log.ptr_first older h.front h.valid.small h.first_in
        (omega (arith, h.fits, back_pos h)) h.entries in
    let there : leb log.num_entries (log.num_entries - 1) ≡ false = ground (arith, h.counted) in
    (
      q,
      rw there (
          ap (λ n. iterator_loop n log.ptr_first log) (omega (arith, h.counted))
          ∙ walk
          ∙ ap (λ t. some (pos t, at_read log q)) (sym h.last_place)),
    )

module _ (size : ℕ) (m : Mem) (h : 1 < size) where
  first_fragment :
      (p : ℕ) (data' : List ℕ)
      → p < size
      → 0 < room size p
      → 0 < length data'
      → window size m p (length (encode size 0 p data')) ≡ encode size 0 p data'
      → fragment_len (m p) ≡ min (room size p) (length data')
  first_fragment p d k l some_data s = elim (dec_lt (room size p) (length d)) [
    | no one ↦
        let e = encode_last size p d h k some_data (omega arith) in
        let (hdr, bytes) =
          window_cons size m p (header size p (length d)) d
            (ap (λ t. window size m p (length t)) (sym e) ∙ s ∙ e) in
        let whole = header_last size p (length d) (omega arith) in omega (arith, hdr, whole)
    | yes longer ↦
        let e = encode_full size p d h k l longer in
        let t =
          take (room size p) d
          ++ encode size 0 ((p + suc (room size p)) % size) (drop (room size p) d) in
        let (hdr, bytes) =
          window_cons size m p (room size p) t
            (ap (λ z. window size m p (length z)) (sym e) ∙ s ∙ e) in
        omega (arith, hdr)
  ]

-- The header byte of an object that was stored: an empty fragment in the last byte of the storage,
-- and that of a fragment that goes on.
pub stored_filler :
    {log : Objectlog} {older : List (List ℕ)} {newest : List ℕ} (h : Holds log older newest)
    (d : List ℕ)
    → 0 < length d
    → h.front + h.back + length (encode log.ring.size 0 log.ring.write_ptr d) ≤ log.ring.size
    → room log.ring.size log.ring.write_ptr ≡ 0
    → (stored log d).ring.cell log.ring.write_ptr ≡ 0
stored_filler {log} h d some_data made k =
    let e = encode_filler log.ring.size log.ring.write_ptr d h.not_tiny some_data k in
    (window_cons log.ring.size (stored log d).ring.cell log.ring.write_ptr 0
      (encode log.ring.size 0 0 d)
      (ap (λ z. window log.ring.size (stored log d).ring.cell log.ring.write_ptr (length z)) (sym e)
        ∙ new_window h d some_data made
        ∙ e)).0

pub stored_full :
    {log : Objectlog} {older : List (List ℕ)} {newest : List ℕ} (h : Holds log older newest)
    (d : List ℕ)
    → 0 < length d
    → h.front + h.back + length (encode log.ring.size 0 log.ring.write_ptr d) ≤ log.ring.size
    → 0 < room log.ring.size log.ring.write_ptr
    → room log.ring.size log.ring.write_ptr < length d
    → (stored log d).ring.cell log.ring.write_ptr ≡ room log.ring.size log.ring.write_ptr
stored_full {log} h d some_data made k longer =
    let w = log.ring.write_ptr in
    let n = room log.ring.size w in
    let e = encode_full log.ring.size w d h.not_tiny h.valid.write_in k longer in
    (window_cons log.ring.size (stored log d).ring.cell w n
      (take n d ++ encode log.ring.size 0 ((w + suc n) % log.ring.size) (drop n d))
      (ap (λ z. window log.ring.size (stored log d).ring.cell w (length z)) (sym e)
        ∙ new_window h d some_data made
        ∙ e)).0

-- The first fragment of an object that was stored.
pub stored_first :
    {log : Objectlog} {older : List (List ℕ)} {newest : List ℕ} (h : Holds log older newest)
    (d : List ℕ)
    → 0 < length d
    → h.front + h.back + length (encode log.ring.size 0 log.ring.write_ptr d) ≤ log.ring.size
    → 0 < room log.ring.size log.ring.write_ptr
    → fragment_len ((stored log d).ring.cell log.ring.write_ptr)
      ≡ min (room log.ring.size log.ring.write_ptr) (length d)
stored_first {log} h d some_data made k =
    first_fragment log.ring.size (stored log d).ring.cell h.not_tiny log.ring.write_ptr d
      h.valid.write_in k some_data (new_window h d some_data made)
