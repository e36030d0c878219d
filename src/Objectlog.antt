-- ===== src/Objectlog.antt =====
-- The object log of src/objectlog.c: a byte ring of objects, each in fragments of at most 127 bytes
-- behind a header byte, the last one with the bit FRAGMENT_FINAL. The oldest objects give way to new
-- ones. `log->ring.read_ptr` is scratch space of `get_next_entry`.
pub mod Format
pub mod Scatter
pub mod Round
pub mod Write
pub mod Store
pub mod Length
pub mod Window
pub mod Object
pub mod Walk
pub mod Entries
pub mod Queue
pub mod Free
pub mod Append
pub mod Add
pub mod Read
pub mod Index
pub mod Newest
pub mod Wrapped
pub mod Start
use mathlib.Core.Option
use fx_ip.Base.{
  Bool, List, Mem, Option, [], drop, false, if◌then◌else◌, leb, length, ltb, map, min, negsuc, none,
  not, pos, some, suc, take, true, zero, ℕ, ℤ, ◌%◌, ◌&&◌, ◌*◌, ◌+◌, ◌-◌, ◌/◌, ◌==◌, ◌^◌, ◌||◌, ◌∷◌,
}
use fx_ip.Ring.{Ring, advance_read, init, read_one, write, write_one}

abbrev pub max_fragment_len : ℕ
max_fragment_len = 0x7f

abbrev pub fragment_final : ℕ
fragment_final = 0x80

-- `FRAGMENT_LEN(x)`
abbrev pub fragment_len : ℕ → ℕ
fragment_len x = x % 128

-- `x & FRAGMENT_FINAL`, as a test
abbrev pub is_final : ℕ → Bool
is_final x = (x / fragment_final) % 2 == 1

-- `objectlog_t`
pub record Objectlog : Type 0 where
  pub ring : Ring
  pub ptr_first : ℕ
  pub ptr_last : ℕ
  pub num_entries : ℕ

-- the header of the fragment at `offset`, and the log after the header and the data were skipped
abbrev pub skip_fragment : Objectlog → ℕ × Objectlog
skip_fragment log =
    let header = (read_one log.ring).0 in
    (header, record log { ring = advance_read (read_one log.ring).1 (fragment_len header) })

-- Has the walk from `offset` come round to it, with the step from `hdr_pos` to `read_ptr`?
abbrev pub came_round : ℕ → ℕ → ℕ → Bool
came_round offset hdr_pos read_ptr =
    (ltb hdr_pos offset && leb offset read_ptr)
    || (ltb offset hdr_pos && leb offset read_ptr && ltb read_ptr hdr_pos)

-- the loop of `get_next_entry`; `none` when the fuel runs out
unfoldable pub next_loop : ℕ → ℕ → Objectlog → Option (ℕ × Objectlog)
next_loop zero offset log = none
next_loop (suc fuel) offset log =
    let skipped = skip_fragment log in
    let later = next_loop fuel offset skipped.1 in
    if came_round offset log.ring.read_ptr skipped.1.ring.read_ptr
    then some (log.ptr_first, skipped.1)
    else if is_final skipped.0
    then some (skipped.1.ring.read_ptr, skipped.1)
    else later

-- `get_next_entry`. Each round skips at least one byte: a walk that goes on for more than `size`
-- rounds has gone past every byte of the storage.
unfoldable pub get_next_entry : Objectlog → ℕ → Option (ℕ × Objectlog)
get_next_entry log offset =
    next_loop log.ring.size offset (record log { ring = record log.ring { read_ptr = offset } })

unfoldable pub objectlog_space_between : Objectlog → ℕ → ℕ → ℕ
objectlog_space_between log first second =
    if leb first second then second - first else (log.ring.size + 2 ^ 16 - first + second) % 2 ^ 16

-- `num_entries--`, of an `unsigned int` of 32 bits
abbrev pub one_less : ℕ → ℕ
one_less n = if n == 0 then 2 ^ 32 - 1 else n - 1

abbrev pub drop_first_entry : Objectlog → Option Objectlog
drop_first_entry log =
    Option.map (λ r. record r.1 { ptr_first = r.0; num_entries = one_less r.1.num_entries })
      (get_next_entry log log.ptr_first)

unfoldable pub objectlog_free_space : Objectlog → ℕ → ℕ
unfolding objectlog_space_between
objectlog_free_space log from = objectlog_space_between log from log.ptr_first

-- the header byte of a fragment
abbrev pub fragment_hdr : ℕ → Bool → ℕ
fragment_hdr len final = if final then fragment_len len + fragment_final else fragment_len len

abbrev pub objectlog_write_fragment_hdr : Ring → ℕ → Bool → Ring
objectlog_write_fragment_hdr ring len final = write_one ring (fragment_hdr len final)

unfoldable pub objectlog_init : Mem → ℕ → Objectlog
unfolding init
objectlog_init storage size = record {
  ring = init storage size;
  ptr_first = 0;
  ptr_last = 0;
  num_entries = 0;
}

-- the loop that drops entries until `total_len` bytes are free
unfoldable pub drop_entries : ℕ → ℕ → ℕ → Objectlog → Option Objectlog
drop_entries zero log_end total_len log = none
drop_entries (suc fuel) log_end total_len log =
    let later : Option Objectlog = elim (drop_first_entry log) [
      | none ↦ none
      | some log' ↦ drop_entries fuel log_end total_len log'
    ] in
    if ltb (objectlog_free_space log log_end) total_len && not (log.ptr_first == log.ptr_last)
    then later
    else some log

-- A scatter list is a list of the byte strings that its pairs (pointer, length) stand for. The first
-- pair of length 0 ends it.
abbrev pub at_end : List (List ℕ) → Bool
at_end [] = true
at_end ([] ∷ later) = true
at_end ((x ∷ xs) ∷ later) = false

abbrev pub current : List (List ℕ) → List ℕ
current [] = []
current (entry ∷ later) = entry

abbrev pub next_in_list : List (List ℕ) → List (List ℕ)
next_in_list [] = []
next_in_list (entry ∷ later) = later

-- the sum of the lengths, as a `uint16_t`
unfoldable pub sum_lens : ℕ → List (List ℕ) → ℕ
sum_lens data_len [] = data_len
sum_lens data_len ([] ∷ later) = data_len
sum_lens data_len ((x ∷ xs) ∷ later) = sum_lens ((data_len + length (x ∷ xs)) % 2 ^ 16) later

-- the variables of the writing loop
pub record Writer : Type 0 where
  pub ring : Ring
  pub sc_list : List (List ℕ)
  pub scatter_entry_offset : ℕ
  pub fragment_offset : ℕ
  pub fragment_len : ℕ
  pub data_len : ℕ

-- the size of the fragment that is being written, or that starts here
abbrev pub fragment_room : Writer → ℕ
fragment_room w =
    if w.fragment_offset == 0
    then min max_fragment_len (w.ring.size - w.ring.write_ptr - 1)
    else w.fragment_len

-- `write_len` where the header is written
abbrev pub fragment_rest : Writer → ℕ
fragment_rest w =
    if ltb (fragment_room w) (w.data_len + w.fragment_offset)
    then fragment_room w - w.fragment_offset
    else w.data_len

abbrev pub with_header : Writer → Ring
with_header w =
    if w.fragment_offset == 0
    then objectlog_write_fragment_hdr w.ring (fragment_rest w) (w.data_len == fragment_rest w)
    else w.ring

-- `write_len` where the data are written
abbrev pub write_len : Writer → ℕ
write_len w = min (fragment_rest w) (length (current w.sc_list) - w.scatter_entry_offset)

-- one round of the writing loop
unfoldable pub write_step : Writer → Writer
write_step w =
    let n = write_len w in
    let entry_done = leb (length (current w.sc_list)) (w.scatter_entry_offset + n) in
    record {
      ring = write (with_header w) (take n (drop w.scatter_entry_offset (current w.sc_list)));
      sc_list = if entry_done then next_in_list w.sc_list else w.sc_list;
      scatter_entry_offset = if entry_done then 0 else w.scatter_entry_offset + n;
      fragment_offset =
          if leb (fragment_room w) (w.fragment_offset + n) then 0 else w.fragment_offset + n;
      fragment_len = fragment_room w;
      data_len = w.data_len - n;
    }

-- the writing loop: `none` when the fuel runs out
unfoldable pub write_loop : ℕ → Writer → Option Writer
write_loop zero w = none
write_loop (suc fuel) w =
    let later = write_loop fuel (write_step w) in if at_end w.sc_list then some w else later

-- A round writes at least one byte of data, but for one that finds room for a header only.
abbrev pub write_fuel : ℕ → ℕ
write_fuel data_len = suc (suc (2 * data_len))

abbrev pub writer : Ring → List (List ℕ) → ℕ → Writer
writer ring scatter_list data_len = record {
  ring = ring;
  sc_list = scatter_list;
  scatter_entry_offset = 0;
  fragment_offset = 0;
  fragment_len = 0;
  data_len = data_len;
}

-- `total_len`, for data that are written from `log_end` on
abbrev pub total_len : ℕ → ℕ → ℕ → ℕ
total_len size log_end data_len =
    let plain = (data_len + (data_len + (max_fragment_len - 1)) / max_fragment_len) % 2 ^ 16 in
    if ltb size (log_end + plain) then (plain + 1) % 2 ^ 16 else plain

-- the part of `objectlog_write_scattered_object` that stores the object
unfoldable pub store_object : List (List ℕ) → ℕ → Objectlog → Option Objectlog
store_object scatter_list data_len log =
    Option.map
      (λ w. record log {
        ring = w.ring;
        ptr_last = log.ring.write_ptr;
        num_entries = log.num_entries + 1;
      })
      (write_loop (write_fuel data_len) (writer log.ring scatter_list data_len))

-- its part behind the first `get_next_entry`
unfoldable pub write_from : List (List ℕ) → ℕ → Objectlog → Option (ℕ × Objectlog)
write_from scatter_list log_end log =
    let data_len = sum_lens 0 scatter_list in
    let total = total_len log.ring.size log_end data_len in
    if ltb log.ring.size total
    then some ((log.ring.size + 2 ^ 16 - total) % 2 ^ 16, log)
    else elim (drop_entries (suc log.num_entries) log_end total log) [
      | none ↦ none
      | some log' ↦ Option.map (λ stored. (0, stored)) (store_object scatter_list data_len log')
    ]

-- `objectlog_write_scattered_object`: its result and the log; `none`: a loop ran out of fuel
unfoldable pub objectlog_write_scattered_object : Objectlog → List (List ℕ) → Option (ℕ × Objectlog)
objectlog_write_scattered_object log scatter_list = elim (get_next_entry log log.ptr_last) [
  | none ↦ none
  | some r ↦ write_from scatter_list r.0 r.1
]

unfoldable pub objectlog_write_object : Objectlog → List ℕ → Option (ℕ × Objectlog)
objectlog_write_object log bytes = objectlog_write_scattered_object log (bytes ∷ [])

-- `str` is the memory from the pointer on; `strlen` is the C library's.
unfoldable pub objectlog_write_string :
    (strlen : List ℕ → ℕ) → Objectlog → List ℕ → Option (ℕ × Objectlog)
objectlog_write_string strlen log str = objectlog_write_object log (take (strlen str % 2 ^ 16) str)

-- the loop of `objectlog_iterator`
unfoldable pub iterator_loop : ℕ → ℕ → Objectlog → Option (ℤ × Objectlog)
iterator_loop zero string_ptr log = some (pos string_ptr, log)
iterator_loop (suc object_idx) string_ptr log = elim (get_next_entry log string_ptr) [
  | none ↦ none
  | some r ↦ iterator_loop object_idx r.0 r.1
]

-- `objectlog_iterator`: the iterator, -1 where there is none, and the log
unfoldable pub objectlog_iterator : Objectlog → ℤ → Option (ℤ × Objectlog)
objectlog_iterator log (pos object_idx) =
    if leb log.num_entries object_idx
    then some (negsuc 0, log)
    else iterator_loop object_idx log.ptr_first log
objectlog_iterator log (negsuc n) =
    if leb log.num_entries (suc n)
    then some (negsuc 0, log)
    else iterator_loop (log.num_entries - suc n) log.ptr_first log

-- `objectlog_get_fragment`: the length of the fragment and the index of its data; `none` is NULL
unfoldable pub objectlog_get_fragment : Objectlog → ℤ → Option (ℕ × ℕ)
objectlog_get_fragment log (negsuc n) = none
objectlog_get_fragment log (pos iterator) =
    if ltb log.ring.size iterator
    then none
    else some (fragment_len (log.ring.cell iterator), iterator + 1)

unfoldable pub objectlog_next : Objectlog → ℤ → ℤ
objectlog_next log (negsuc n) = negsuc 0
objectlog_next log (pos iterator) =
    let header = log.ring.cell iterator in
    if ltb log.ring.size iterator
    then negsuc 0
    else if is_final header
    then negsuc 1
    else pos ((iterator + 1 + fragment_len header) % log.ring.size)

-- the loop of `objectlog_get_object_size`
unfoldable pub size_loop : ℕ → ℕ → Objectlog → ℤ → Option ℤ
size_loop zero len log iter = none
size_loop (suc fuel) len log (negsuc n) = some (pos len)
size_loop (suc fuel) len log (pos i) = elim (objectlog_get_fragment log (pos i)) [
  | none ↦ some (negsuc 0)
  | some r ↦ size_loop fuel ((len + r.0) % 2 ^ 16) log (objectlog_next log (pos i))
]

-- `objectlog_get_object_size`; the fuel is enough for an object that does not overlap itself
unfoldable pub objectlog_get_object_size : Objectlog → ℤ → Option (ℤ × Objectlog)
objectlog_get_object_size log object_idx = elim (objectlog_iterator log object_idx) [
  | none ↦ none
  | some (negsuc n, log') ↦ some (negsuc 0, log')
  | some (pos iter, log') ↦
      Option.map (λ size. (size, log')) (size_loop (suc log'.ring.size) 0 log' (pos iter))
]
