-- ===== src/Objectlog/Round.antt =====
-- One round of the writing loop of the object log.
use fx_ip.Base.{
  Bool-cases, List, ap, ap₂, arith, drop, false, if◌then◌else◌, inl, inr, leb, leb→le, length,
  length-append, length-drop, length-take, min, refl, sym, take, true, ℕ, ◌%◌, ◌++◌, ◌+◌, ◌-◌, ◌<◌,
  ◌==◌, ◌∙◌, ◌∷◌, ◌≡◌, ◌≢◌, ◌≤◌, ◌⊎◌,
}
use fx_ip.Objectlog.{
  Writer, at_end, current, fragment_hdr, fragment_rest, fragment_room, next_in_list, with_header,
  write_len, write_step,
}
use fx_ip.Objectlog.Format.{flat, header, remaining, room}
use fx_ip.Objectlog.Scatter.{
  drop-append, drop-drop, drop_all, entry_start, remaining-current, remaining_zero, take-append,
}
use fx_ip.Ring.{write_one}
use fx_ip.Ring.Bulk.{write-eq-write_all, write_all, write_all-IsValid, write_all-pointers}
use fx_ip.Ring.Inv.{IsValid, write_one-IsValid}

-- what is left of the current fragment
abbrev pub left_in : Writer → ℕ
left_in w = if w.fragment_offset == 0 then 0 else w.fragment_len - w.fragment_offset

-- the loop invariant: `rest` is what is still to be written
pub record IsWriting (w : Writer) (rest : List ℕ) : Type 0 where
  pub valid : IsValid w.ring
  pub not_tiny : 1 < w.ring.size
  pub rest_is : rest ≡ remaining w.scatter_entry_offset w.sc_list
  pub counted : w.data_len ≡ length rest
  pub inside : (at_end w.sc_list ≡ true) ⊎ (w.scatter_entry_offset < length (current w.sc_list))
  pub fragment : (w.fragment_offset ≡ 0) ⊎ (w.fragment_offset < w.fragment_len)
  pub small : w.fragment_len ≤ w.ring.size

-- the bytes that one round writes
abbrev pub round_bytes : Writer → List ℕ → List ℕ
round_bytes w rest =
    if w.fragment_offset == 0
    then header w.ring.size w.ring.write_ptr (length rest) ∷ take (write_len w) rest
    else take (write_len w) rest

module _ {w : Writer} {rest : List ℕ} (i : IsWriting w rest) (more : at_end w.sc_list ≡ false) where
  pub inside_entry : w.scatter_entry_offset < length (current w.sc_list)
  inside_entry = elim i.inside [ inl e ↦ absurd (cc) | inr h ↦ h ]

  pub rest_split :
      rest ≡ drop w.scatter_entry_offset (current w.sc_list) ++ flat (next_in_list w.sc_list)
  rest_split = i.rest_is ∙ remaining-current w.scatter_entry_offset w.sc_list inside_entry

  pub entry_rest :
      length (drop w.scatter_entry_offset (current w.sc_list))
      ≡ length (current w.sc_list) - w.scatter_entry_offset
  entry_rest = length-drop w.scatter_entry_offset (current w.sc_list)

  pub length_split : length (current w.sc_list) - w.scatter_entry_offset ≤ length rest
  length_split = omega (
    arith,
    ap length rest_split,
    length-append {0} (drop w.scatter_entry_offset (current w.sc_list))
        (flat (next_in_list w.sc_list)),
    entry_rest,
  )

  pub write_len-le :
      (write_len w ≤ length rest)
      × (write_len w ≤ length (current w.sc_list) - w.scatter_entry_offset)
      × (write_len w ≤ w.ring.size)
  write_len-le = (omega (arith, length_split), omega arith, ground arith)

  pub chunk :
      take (write_len w) (drop w.scatter_entry_offset (current w.sc_list)) ≡ take (write_len w) rest
  chunk =
      sym (
        take-append (write_len w) (drop w.scatter_entry_offset (current w.sc_list))
          (flat (next_in_list w.sc_list)) (omega (arith, entry_rest)))
      ∙ ap (take (write_len w)) (sym rest_split)

  pub dropped :
      drop (write_len w) rest
      ≡ drop (w.scatter_entry_offset + write_len w) (current w.sc_list)
        ++ flat (next_in_list w.sc_list)
  dropped =
      ap (drop (write_len w)) rest_split
      ∙ drop-append (write_len w) (drop w.scatter_entry_offset (current w.sc_list))
          (flat (next_in_list w.sc_list)) (omega (arith, entry_rest))
      ∙ ap (λ t. t ++ flat (next_in_list w.sc_list))
          (drop-drop (write_len w) w.scatter_entry_offset (current w.sc_list))

  pub rest_next :
      drop (write_len w) rest ≡ remaining (write_step w).scatter_entry_offset (write_step w).sc_list
  unfolding write_step
  rest_next =
      elim (Bool-cases (leb (length (current w.sc_list)) (w.scatter_entry_offset + write_len w))) [
        | inl e ↦ rw e (
            dropped
            ∙ ap (λ t. t ++ flat (next_in_list w.sc_list))
                (drop_all (w.scatter_entry_offset + write_len w) (current w.sc_list) (leb→le _ _ e))
            ∙ sym (remaining_zero (next_in_list w.sc_list)))
        | inr e ↦ rw e (
            dropped
            ∙ sym
                (remaining-current (w.scatter_entry_offset + write_len w) w.sc_list (ground arith)))
      ]

  pub inside_next :
      (at_end (write_step w).sc_list ≡ true)
      ⊎ ((write_step w).scatter_entry_offset < length (current (write_step w).sc_list))
  unfolding write_step
  inside_next =
      elim (Bool-cases (leb (length (current w.sc_list)) (w.scatter_entry_offset + write_len w))) [
        | inl e ↦ rw e (entry_start (next_in_list w.sc_list))
        | inr e ↦ rw e (inr (ground arith))
      ]

  pub fragment_next :
      ((write_step w).fragment_offset ≡ 0)
      ⊎ ((write_step w).fragment_offset < (write_step w).fragment_len)
  unfolding write_step
  fragment_next = elim (Bool-cases (leb (fragment_room w) (w.fragment_offset + write_len w))) [
    | inl e ↦ rw e (inl refl)
    | inr e ↦ rw e (inr (ground arith))
  ]

  pub inner_left : w.fragment_offset ≢ 0 → fragment_rest w ≡ min (left_in w) (length rest)
  inner_left o = ground (arith, i.counted)

  pub first_left :
      w.fragment_offset ≡ 0
      → fragment_rest w ≡ min (room w.ring.size w.ring.write_ptr) (length rest)
  first_left o = ground (arith, i.counted)

  pub first_header :
      w.fragment_offset ≡ 0
      → fragment_hdr (fragment_rest w) (w.data_len == fragment_rest w)
        ≡ header w.ring.size w.ring.write_ptr (length rest)
  first_header o = ap₂ (λ a b. fragment_hdr a (b == a)) (first_left o) i.counted

  pub with_header-IsValid : IsValid (with_header w) × ((with_header w).size ≡ w.ring.size)
  with_header-IsValid = elim (Bool-cases (w.fragment_offset == 0)) [
    | inl e ↦ rw e (write_one-IsValid _ i.valid, unfold write_one in refl)
    | inr e ↦ rw e (i.valid, refl)
  ]

  pub ring_data : (write_step w).ring ≡ write_all (with_header w) (take (write_len w) rest)
  unfolding write_step
  ring_data =
      write-eq-write_all {r = with_header w}
        (take (write_len w) (drop w.scatter_entry_offset (current w.sc_list))) with_header-IsValid.0
        (omega (
          arith,
          length-take (write_len w) (drop w.scatter_entry_offset (current w.sc_list)),
          write_len-le,
          with_header-IsValid.1,
        ))
      ∙ ap (write_all (with_header w)) chunk

  -- a round that starts a fragment, and one inside a fragment
  pub first_round :
      (w.fragment_offset == 0) ≡ true
      → (round_bytes w rest
          ≡ header w.ring.size w.ring.write_ptr (length rest) ∷ take (write_len w) rest)
        × (with_header w ≡ write_one w.ring (header w.ring.size w.ring.write_ptr (length rest)))
  first_round e = (
    ap
        (λ b.
          if b
          then header w.ring.size w.ring.write_ptr (length rest) ∷ take (write_len w) rest
          else take (write_len w) rest)
        e,
    ap
          (λ b.
            if b
            then write_one w.ring (fragment_hdr (fragment_rest w) (w.data_len == fragment_rest w))
            else w.ring)
          e
        ∙ ap (write_one w.ring) (first_header (ground arith)),
  )

  pub inner_round :
      (w.fragment_offset == 0) ≡ false
      → (round_bytes w rest ≡ take (write_len w) rest) × (with_header w ≡ w.ring)
  inner_round e = (
    ap
        (λ b.
          if b
          then header w.ring.size w.ring.write_ptr (length rest) ∷ take (write_len w) rest
          else take (write_len w) rest)
        e,
    ap
        (λ b.
          if b
          then write_one w.ring (fragment_hdr (fragment_rest w) (w.data_len == fragment_rest w))
          else w.ring)
        e,
  )

  pub ring_next : (write_step w).ring ≡ write_all w.ring (round_bytes w rest)
  unfolding write_all
  ring_next = elim (Bool-cases (w.fragment_offset == 0)) [
    | inl e ↦
        ring_data
        ∙ ap (λ r. write_all r (take (write_len w) rest)) (first_round e).1
        ∙ ap (write_all w.ring) (sym (first_round e).0)
    | inr e ↦
        ring_data
        ∙ ap (λ r. write_all r (take (write_len w) rest)) (inner_round e).1
        ∙ ap (write_all w.ring) (sym (inner_round e).0)
  ]

  pub size_next : (write_step w).ring.size ≡ w.ring.size
  size_next =
      ap (λ r. r.size) ring_next ∙ (write_all-pointers w.ring (round_bytes w rest) i.valid).0

  pub place_next :
      (write_step w).ring.write_ptr ≡ (w.ring.write_ptr + length (round_bytes w rest)) % w.ring.size
  place_next =
      ap (λ r. r.write_ptr) ring_next ∙ (write_all-pointers w.ring (round_bytes w rest) i.valid).2

  pub room-le-size : fragment_room w ≤ w.ring.size
  room-le-size = ground (arith, i.small)

  pub small_next : (write_step w).fragment_len ≤ (write_step w).ring.size
  small_next = rw size_next (unfold write_step in room-le-size)

  pub step-IsWriting : IsWriting (write_step w) (drop (write_len w) rest)
  step-IsWriting = record {
    valid = rw ring_next (write_all-IsValid w.ring (round_bytes w rest) i.valid);
    not_tiny = omega (arith, size_next, i.not_tiny);
    rest_is = rest_next;
    counted = unfold write_step in omega (arith, length-drop (write_len w) rest, i.counted);
    inside = inside_next;
    fragment = fragment_next;
    small = small_next;
  }
