-- ===== src/Ring/Bulk.antt =====
-- `ringbuffer_write` copies in at most two blocks what `ringbuffer_write_one` would write byte by
-- byte.
use native.Mathlib.Nat.{mod-add-mod, mod-eq-sub-mod}
use fx_ip.Base.{
  ℕ, ◌+◌, ◌-◌, ◌%◌, ◌≤◌, ◌<◌, ◌≡◌, refl, ◌∙◌, ap, ap₂, List, [], ◌∷◌, ◌++◌, arith, Mem, poke, blit,
  mod_small, sym, length, take, drop, take-append-drop, length-take, length-drop, Bool-cases, inl,
  inr, Bool, false, append-nil, append_assoc, if◌then◌else◌, mod_once, ltb, ltb→lt,
}
use fx_ip.Ring.{Ring, available, write_one, write_round, write, bump, u16_mod}
use fx_ip.Ring.Inv.{IsValid, available_lem, available_unique, write_one-IsValid}
use fx_ip.Ring.Refine.{contents, contents-write_one, available-write_one}

unfoldable pub write_all : Ring → List ℕ → Ring
write_all r [] = r
write_all r (x ∷ xs) = write_all (write_one r x) xs

pub write_all-append :
    (r : Ring) (xs ys : List ℕ) → write_all r (xs ++ ys) ≡ write_all (write_all r xs) ys
unfolding write_all
write_all-append r [] ys = refl
write_all-append r (x ∷ xs) ys = write_all-append (write_one r x) xs ys

-- the ring with other cells and another write index
abbrev at : Ring → Mem → ℕ → Ring
at r m p = record r { cell = m; write_ptr = p }

-- A write that does not go round is one block copy.
write_all_straight :
    (r : Ring) (xs : List ℕ)
    → IsValid r
    → r.write_ptr + length xs ≤ r.size
    → write_all r xs ≡ at r (blit r.cell r.write_ptr xs) (bump r r.write_ptr (length xs))
unfolding write_all
write_all_straight r [] v h = ap (at r r.cell) (
    sym (mod_small r.write_ptr r.size v.write_in)
    ∙ ap (λ t. t % r.size) (omega (arith, v.small, v.write_in)))
write_all_straight r (x ∷ []) v h = unfold write_one in refl
write_all_straight r (x ∷ y ∷ ys) v h =
    write_all_straight (write_one r x) (y ∷ ys) (write_one-IsValid x v)
      (unfold write_one in omega (arith, next, v.small))
    ∙ unfold write_one in
      ap₂ (at r) (ap (λ p. blit (poke r.cell r.write_ptr x) p (y ∷ ys)) next)
        (ap (λ p. bump r p (length (y ∷ ys))) next ∙ ap (λ t. t % u16_mod % r.size) (omega arith))
  where
    next : bump r r.write_ptr 1 ≡ r.write_ptr + 1
    next =
        ap (λ t. t % r.size) (omega (arith, v.small))
        ∙ mod_small (r.write_ptr + 1) r.size (omega arith)

-- Data that reach past the end are copied in two blocks.
write_all_round :
    (r : Ring) (xs : List ℕ)
    → IsValid r
    → length xs ≤ r.size
    → r.size < r.write_ptr + length xs
    → write_all r xs ≡ write_round r xs
write_all_round r xs v h k =
    ap (write_all r) (sym (take-append-drop n xs))
    ∙ write_all-append r (take n xs) (drop n xs)
    ∙ ap (λ q. write_all q (drop n xs)) first
    ∙ second
  where
    n : ℕ
    n = r.size - r.write_ptr

    kept : length (take n xs) ≡ n
    kept = omega (arith, length-take n xs)

    first : write_all r (take n xs) ≡ at r (blit r.cell r.write_ptr (take n xs)) 0
    first =
        write_all_straight r (take n xs) v (omega (arith, kept))
        ∙ ap (at r (blit r.cell r.write_ptr (take n xs))) (
            ap (λ t. t % r.size) {y = r.size} (omega (arith, kept, v.small))
            ∙ mod_once r.size r.size (omega arith) (omega arith)
            ∙ omega arith)

    second : write_all (at r (blit r.cell r.write_ptr (take n xs)) 0) (drop n xs) ≡ write_round r xs
    second =
        write_all_straight (at r (blit r.cell r.write_ptr (take n xs)) 0) (drop n xs)
          (record { small = v.small; read_in = v.read_in; write_in = omega arith })
          (omega (arith, length-drop n xs))

fits : (b : Bool) (n : ℕ) (xs : List ℕ) → b ≡ false → (if b then drop n xs else xs) ≡ xs
fits b n xs e = rw e

-- `ringbuffer_write` of at most size bytes, with its block copies, leaves exactly the ring that
-- writing the bytes one by one leaves, for a valid ring.
pub write-eq-write_all :
    {r : Ring} (xs : List ℕ) → IsValid r → length xs ≤ r.size → write r xs ≡ write_all r xs
unfolding write
write-eq-write_all {r} xs v h = elim (Bool-cases (ltb r.size (r.write_ptr + length xs))) [
  | inl e ↦ rw e (
      ap (write_round r) (fits (ltb r.size (length xs)) (length xs - r.size) xs (ground arith))
      ∙ sym (write_all_round r xs v h (ltb→lt _ _ e)))
  | inr e ↦ rw e (sym (write_all_straight r xs v (ground arith)))
]

pub write_all-IsValid : (r : Ring) (xs : List ℕ) → IsValid r → IsValid (write_all r xs)
unfolding write_all
write_all-IsValid r [] v = v
write_all-IsValid r (x ∷ xs) v = write_all-IsValid (write_one r x) xs (write_one-IsValid x v)

pub contents-write_all :
    (r : Ring) (xs : List ℕ)
    → IsValid r
    → available r + length xs < r.size
    → contents (write_all r xs) ≡ contents r ++ xs
unfolding write_all
contents-write_all r [] v h = sym (append-nil (contents r))
contents-write_all r (x ∷ xs) v h =
    contents-write_all (write_one r x) xs (write_one-IsValid x v)
      (unfold write_one in omega (arith, available-write_one v x (omega arith)))
    ∙ ap (λ q. q ++ xs) (contents-write_one v x (omega arith))
    ∙ append_assoc (contents r) (x ∷ []) xs

-- For a valid ring, `ringbuffer_write` of data that leave at least one place free appends them to
-- the queue as they are.
pub contents-write :
    {r : Ring} (xs : List ℕ)
    → IsValid r
    → available r + length xs < r.size
    → contents (write r xs) ≡ contents r ++ xs
contents-write {r} xs v h =
    ap contents (write-eq-write_all xs v (omega arith)) ∙ contents-write_all r xs v h

pub write_all-pointers :
    (r : Ring) (xs : List ℕ)
    → IsValid r
    → ((write_all r xs).size ≡ r.size)
      × ((write_all r xs).read_ptr ≡ r.read_ptr)
      × ((write_all r xs).write_ptr ≡ (r.write_ptr + length xs) % r.size)
unfolding write_all write_one
write_all-pointers r [] v =
    (refl, refl, sym (mod_small (r.write_ptr + 0) r.size (omega (arith, v.write_in)) ∙ omega arith))
write_all-pointers r (x ∷ xs) v =
    let ih = write_all-pointers (write_one r x) xs (write_one-IsValid x v) in
    (
      ih.0,
      ih.1,
      ih.2
          ∙ mod-add-mod ((r.write_ptr + 1) % u16_mod) r.size (length xs)
          ∙ ap (λ t. t % r.size) (omega (arith, v.small, v.write_in)),
    )

-- Data that fill the storage to the last byte leave a ring that counts as empty: all bytes that it
-- held, the new ones included, are lost to the reader.
pub write_full :
    {r : Ring} (xs : List ℕ)
    → IsValid r
    → length xs ≤ r.size
    → available r + length xs ≡ r.size
    → available (write r xs) ≡ 0
write_full {r} xs v h e =
    ap available (write-eq-write_all xs v h)
    ∙ available_unique 0 (write_all-IsValid r xs v) (omega (arith, at_end.0, v.read_in))
        (ap₂ (λ p n. (p + 0) % n) at_end.1 at_end.0 ∙ sym (at_end.2 ∙ around))
  where
    at_end :
        ((write_all r xs).size ≡ r.size)
        × ((write_all r xs).read_ptr ≡ r.read_ptr)
        × ((write_all r xs).write_ptr ≡ (r.write_ptr + length xs) % r.size)
    at_end = write_all-pointers r xs v

    around : (r.write_ptr + length xs) % r.size ≡ (r.read_ptr + 0) % r.size
    around =
        ap (λ p. (p + length xs) % r.size) (sym (available_lem v).1)
        ∙ mod-add-mod (r.read_ptr + available r) r.size (length xs)
        ∙ mod-eq-sub-mod (omega arith)
        ∙ ap (λ t. t % r.size) (omega arith)
