-- ===== src/Objectlog/Write.antt =====
-- The writing loop of the object log appends the bytes of `encode`.
use fx_ip.Base.{
  Bool-cases, List, ap, ap₂, arith, dec_lt, drop, false, if◌then◌else◌, inl, inr, leb, length,
  length-drop, length-take, mod_once, mod_small, refl, some, suc, sym, take, true, zero, ℕ, ◌%◌,
  ◌*◌, ◌++◌, ◌+◌, ◌-◌, ◌<◌, ◌==◌, ◌∙◌, ◌∷◌, ◌≡◌, ◌≢◌, ◌≤◌,
}
use fx_ip.Objectlog.{Writer, at_end, fragment_room, write_len, write_loop, write_step}
use fx_ip.Objectlog.Format.{
  encode, encode_chunk, encode_filler, encode_start, header, header_filler, room,
}
use fx_ip.Objectlog.Round.{
  IsWriting, first_left, first_round, inner_left, inner_round, inside_entry, left_in, length_split,
  place_next, ring_next, round_bytes, size_next, step-IsWriting, write_len-le,
}
use fx_ip.Ring.Bulk.{write_all, write_all-append}
use fx_ip.Ring.Refine.{mod_shift}
use fx_ip.Objectlog.Scatter.{remaining_end}

-- the round that finds room for a header only
pub extra : ℕ → ℕ → ℕ
extra left n = if left == 0 then (if n == 0 then 1 else 0) else 0

pub extra-le : (left n : ℕ) → extra left n ≤ 1
unfolding extra
extra-le left n = ground arith

extra_room : (left n : ℕ) → n ≢ 0 → extra left n ≡ 0
unfolding extra
extra_room left n h = ground arith

extra_filler : (left n : ℕ) → left ≡ 0 → n ≡ 0 → extra left n ≡ 1
unfolding extra
extra_filler left n h k = ground arith

-- a bound on the rounds that are left
abbrev pub rounds : Writer → List ℕ → ℕ
rounds w rest = 2 * length rest + extra (left_in w) (room w.ring.size w.ring.write_ptr)

left_after :
    (r o n : ℕ)
    → (o + n ≡ 0 → r ≡ 0)
    → (if (if leb r (o + n) then 0 else o + n) == 0
        then 0
        else r - (if leb r (o + n) then 0 else o + n))
      ≡ r - (o + n)
left_after r o n h = elim (dec_lt 0 (o + n)) [
  | yes p ↦ ground arith
  | no p ↦ ground (arith, h (omega arith))
]

module _ {w : Writer} {rest : List ℕ} (i : IsWriting w rest) (more : at_end w.sc_list ≡ false) where
  rest_pos : 0 < length rest
  rest_pos = omega (arith, length_split i more, inside_entry i more)

  write_len_first : w.fragment_offset ≡ 0 → write_len w ≤ room w.ring.size w.ring.write_ptr
  write_len_first o = omega (arith, first_left i more o)

  write_len_pos : w.fragment_offset ≡ 0 → room w.ring.size w.ring.write_ptr ≢ 0 → 0 < write_len w
  write_len_pos o a = omega (arith, first_left i more o, rest_pos, inside_entry i more)

  room_first : w.fragment_offset ≡ 0 → fragment_room w ≡ room w.ring.size w.ring.write_ptr
  room_first o = ground arith

  room_inner : w.fragment_offset ≢ 0 → fragment_room w ≡ w.fragment_len
  room_inner o = ground arith

  left_inner : w.fragment_offset ≢ 0 → left_in w ≡ w.fragment_len - w.fragment_offset
  left_inner o = ground arith

  inside_fragment : w.fragment_offset ≢ 0 → w.fragment_offset < w.fragment_len
  inside_fragment o = elim i.fragment [ inl e ↦ absurd (o e) | inr h ↦ h ]

  write_len_inner : w.fragment_offset ≢ 0 → (0 < write_len w) × (write_len w ≤ left_in w)
  write_len_inner o =
      let lt = inside_fragment o in
      let l = left_inner o in
      let e = inner_left i more o in let p = rest_pos in let q = inside_entry i more in omega arith

  left_next :
      (w.fragment_offset + write_len w ≡ 0 → fragment_room w ≡ 0)
      → left_in (write_step w) ≡ fragment_room w - (w.fragment_offset + write_len w)
  unfolding write_step
  left_next h = left_after (fragment_room w) w.fragment_offset (write_len w) h

  left_next_first :
      w.fragment_offset ≡ 0
      → left_in (write_step w) ≡ room w.ring.size w.ring.write_ptr - write_len w
  left_next_first o =
      left_next (λ z. elim (dec_lt 0 (room w.ring.size w.ring.write_ptr)) [
        | yes p ↦ absurd (omega (arith, write_len_pos o (omega arith)))
        | no p ↦ omega (arith, room_first o)
      ])
      ∙ omega (arith, room_first o)

  left_next_inner : w.fragment_offset ≢ 0 → left_in (write_step w) ≡ left_in w - write_len w
  left_next_inner o =
      left_next (λ z. absurd (omega arith)) ∙ omega (arith, room_inner o, left_inner o)

  left_first : w.fragment_offset ≡ 0 → left_in w ≡ 0
  left_first o = ground arith

  length-take_len : length (take (write_len w) rest) ≡ write_len w
  length-take_len = omega (arith, length-take (write_len w) rest, (write_len-le i more).0)

  place_first :
      (w.fragment_offset == 0) ≡ true
      → (write_step w).ring.write_ptr
        ≡ ((w.ring.write_ptr + 1) % w.ring.size + write_len w) % w.ring.size
  place_first e =
      place_next i more
      ∙ ap (λ t. (w.ring.write_ptr + t) % w.ring.size)
          (ap length (first_round i more e).0 ∙ ap suc length-take_len)
      ∙ sym (mod_shift w.ring.write_ptr (write_len w) w.ring.size)

  place_inner :
      (w.fragment_offset == 0) ≡ false
      → (write_step w).ring.write_ptr ≡ (w.ring.write_ptr + write_len w) % w.ring.size
  place_inner e =
      place_next i more
      ∙ ap (λ t. (w.ring.write_ptr + t) % w.ring.size)
          (ap length (inner_round i more e).0 ∙ length-take_len)

  -- what the later rounds write
  next_bytes : List ℕ
  next_bytes =
      encode w.ring.size (left_in (write_step w)) (write_step w).ring.write_ptr
        (drop (write_len w) rest)

  bytes_inner :
      (w.fragment_offset == 0) ≡ false
      → encode w.ring.size (left_in w) w.ring.write_ptr rest ≡ take (write_len w) rest ++ next_bytes
  unfolding next_bytes
  bytes_inner e =
      encode_chunk w.ring.size (write_len w) (left_in w) w.ring.write_ptr rest i.valid.write_in
        (write_len_inner (ground arith)).1 (write_len-le i more).0
      ∙ ap₂ (λ l p. take (write_len w) rest ++ encode w.ring.size l p (drop (write_len w) rest))
          (sym (left_next_inner (ground arith))) (sym (place_inner e))

  bytes_first :
      (w.fragment_offset == 0) ≡ true
      → room w.ring.size w.ring.write_ptr ≢ 0
      → encode w.ring.size 0 w.ring.write_ptr rest
        ≡ header w.ring.size w.ring.write_ptr (length rest)
          ∷ (take (write_len w) rest ++ next_bytes)
  unfolding next_bytes
  bytes_first e a =
      encode_start w.ring.size w.ring.write_ptr rest i.not_tiny rest_pos a
      ∙ ap (◌∷◌ (header w.ring.size w.ring.write_ptr (length rest))) (
          encode_chunk w.ring.size (write_len w) (room w.ring.size w.ring.write_ptr)
            ((w.ring.write_ptr + 1) % w.ring.size) rest (omega (arith, i.not_tiny))
            (write_len_first (ground arith)) (write_len-le i more).0
          ∙ ap₂ (λ l p. take (write_len w) rest ++ encode w.ring.size l p (drop (write_len w) rest))
              (sym (left_next_first (ground arith))) (sym (place_first e)))

  filler_place :
      (w.fragment_offset == 0) ≡ true
      → room w.ring.size w.ring.write_ptr ≡ 0
      → (write_step w).ring.write_ptr ≡ 0
  filler_place e a =
      let n = write_len_first (ground arith) in
      let h = i.valid.write_in in
      place_first e
      ∙ ap (λ t. (t + write_len w) % w.ring.size)
          (mod_once (w.ring.write_ptr + 1) w.ring.size (omega arith) (omega arith))
      ∙ mod_small (w.ring.write_ptr + 1 - w.ring.size + write_len w) w.ring.size (omega arith)
      ∙ omega arith

  bytes_filler :
      (w.fragment_offset == 0) ≡ true
      → room w.ring.size w.ring.write_ptr ≡ 0
      → encode w.ring.size 0 w.ring.write_ptr rest
        ≡ header w.ring.size w.ring.write_ptr (length rest)
          ∷ (take (write_len w) rest ++ next_bytes)
  unfolding next_bytes
  bytes_filler e a =
      encode_filler w.ring.size w.ring.write_ptr rest i.not_tiny rest_pos a
      ∙ ap₂ ◌∷◌ (sym (header_filler w.ring.size w.ring.write_ptr (length rest) rest_pos a)) (
          ap₂ (λ l p. encode w.ring.size l p rest) (omega (arith, left_next_first (ground arith)))
            (sym (filler_place e a))
          ∙ ap
              (λ n.
                take n rest
                ++ encode w.ring.size (left_in (write_step w)) (write_step w).ring.write_ptr
                    (drop n rest))
              {x = 0} (let n = write_len_first (ground arith) in omega arith))

  -- The bytes of a round and of the later ones are the encoding of what is left.
  round-encode :
      encode w.ring.size (left_in w) w.ring.write_ptr rest ≡ round_bytes w rest ++ next_bytes
  round-encode = elim (Bool-cases (w.fragment_offset == 0)) [
    | inl e ↦
        ap (λ l. encode w.ring.size l w.ring.write_ptr rest) (left_first (ground arith))
        ∙ elim (dec_lt 0 (room w.ring.size w.ring.write_ptr)) [
          | yes p ↦ bytes_first e (omega arith)
          | no p ↦ bytes_filler e (omega arith)
        ]
        ∙ ap (λ t. t ++ next_bytes) (sym (first_round i more e).0)
    | inr e ↦ bytes_inner e ∙ ap (λ t. t ++ next_bytes) (sym (inner_round i more e).0)
  ]

  round-write_all :
      write_all (write_step w).ring (
        encode
          (write_step w).ring.size
          (left_in (write_step w))
          (write_step w).ring.write_ptr
          (drop (write_len w) rest))
      ≡ write_all w.ring (encode w.ring.size (left_in w) w.ring.write_ptr rest)
  unfolding next_bytes
  round-write_all =
      ap
        (λ z. write_all (write_step w).ring (
          encode z (left_in (write_step w)) (write_step w).ring.write_ptr
            (drop (write_len w) rest)))
        (size_next i more)
      ∙ ap (λ q. write_all q next_bytes) (ring_next i more)
      ∙ sym (write_all-append w.ring (round_bytes w rest) next_bytes)
      ∙ ap (write_all w.ring) (sym round-encode)

  writes_fall : 0 < write_len w → rounds (write_step w) (drop (write_len w) rest) < rounds w rest
  writes_fall h = omega (
    arith,
    length-drop (write_len w) rest,
    (write_len-le i more).0,
    extra-le (left_in (write_step w)) (room (write_step w).ring.size (write_step w).ring.write_ptr),
  )

  filler_falls :
      (w.fragment_offset == 0) ≡ true
      → room w.ring.size w.ring.write_ptr ≡ 0
      → rounds (write_step w) (drop (write_len w) rest) < rounds w rest
  filler_falls e a =
      let place = filler_place e a in
      let size = size_next i more in
      let now =
        extra_filler (left_in w) (room w.ring.size w.ring.write_ptr) (left_first (ground arith))
          a in
      let later =
        extra_room (left_in (write_step w))
          (room (write_step w).ring.size (write_step w).ring.write_ptr)
          (λ z. absurd (omega (arith, i.not_tiny))) in
      omega (arith, length-drop (write_len w) rest)

  rounds_fall : rounds (write_step w) (drop (write_len w) rest) < rounds w rest
  rounds_fall = elim (Bool-cases (w.fragment_offset == 0)) [
    | inl e ↦ elim (dec_lt 0 (room w.ring.size w.ring.write_ptr)) [
      | yes p ↦ writes_fall (write_len_pos (ground arith) (omega arith))
      | no p ↦ filler_falls e (omega arith)
    ]
    | inr e ↦ writes_fall (write_len_inner (ground arith)).0
  ]

pub write_loop-encode :
    (fuel : ℕ) {w : Writer} {rest : List ℕ}
    → IsWriting w rest
    → rounds w rest < fuel
    → (w' : Writer) × (write_loop fuel w ≡ some w')
      × (w'.ring ≡ write_all w.ring (encode w.ring.size (left_in w) w.ring.write_ptr rest))
unfolding write_loop encode write_all
write_loop-encode zero i h = absurd (omega arith)
write_loop-encode (suc fuel) {w} {rest} i h = elim (Bool-cases (at_end w.sc_list)) [
  | inl e ↦ (w, rw e refl, written e)
  | inr e ↦
      let (w', go, is) =
        write_loop-encode fuel (step-IsWriting i e) (omega (arith, rounds_fall i e)) in
      (w', rw e go, is ∙ round-write_all i e)
]
  where
    written :
        at_end w.sc_list ≡ true
        → w.ring ≡ write_all w.ring (encode w.ring.size (left_in w) w.ring.write_ptr rest)
    written e =
        ap (λ r. write_all w.ring (encode w.ring.size (left_in w) w.ring.write_ptr r))
          (sym (i.rest_is ∙ remaining_end w.scatter_entry_offset w.sc_list e))
