-- ===== src/Ring/Place.antt =====
-- Where the bytes stand that were written one by one: behind one another round the storage, and
-- nowhere else.
use fx_ip.Base.{
  List, [], ap, ap₂, arith, length, mod_small, poke_ne, poke_self, refl, suc, sym, ℕ, ◌%◌, ◌+◌, ◌<◌,
  ◌∙◌, ◌∷◌, ◌≡◌, ◌≢◌, ◌≤◌,
}
use fx_ip.Ring.{Ring, write_one}
use fx_ip.Ring.Bulk.{write_all}
use fx_ip.Ring.Inv.{IsValid, write_one-IsValid}
use fx_ip.Ring.Refine.{mod_distinct, mod_shift, window}

write_one_place :
    {r : Ring} (b : ℕ) → IsValid r → (write_one r b).write_ptr ≡ (r.write_ptr + 1) % r.size
unfolding write_one
write_one_place {r} b v = ap (λ t. t % r.size) (omega (arith, v.small, v.write_in))

step_place :
    {r : Ring} (b i : ℕ)
    → IsValid r
    → ((write_one r b).write_ptr + i) % r.size ≡ (r.write_ptr + suc i) % r.size
step_place {r} b i v =
    ap (λ p. (p + i) % r.size) (write_one_place b v) ∙ mod_shift r.write_ptr i r.size

at_zero : {r : Ring} → IsValid r → (r.write_ptr + 0) % r.size ≡ r.write_ptr
at_zero {r} v = mod_small (r.write_ptr + 0) r.size (omega (arith, v.write_in)) ∙ omega arith

-- A cell that no byte is written to keeps its content.
pub write_all_outside :
    (r : Ring) (xs : List ℕ) (j : ℕ)
    → IsValid r
    → ((i : ℕ) → i < length xs → (r.write_ptr + i) % r.size ≢ j)
    → (write_all r xs).cell j ≡ r.cell j
unfolding write_all
write_all_outside r [] j v h = refl
write_all_outside r (x ∷ xs) j v h =
    write_all_outside (write_one r x) xs j (write_one-IsValid x v)
      (unfold write_one in λ i lt e. h (suc i) (omega arith) (sym (step_place x i v) ∙ e))
    ∙ unfold write_one in
      poke_ne r.cell r.write_ptr j x (λ e. h 0 (omega arith) (at_zero v ∙ sym e))

-- At most `size` bytes stand where they were written.
pub window-write_all :
    (r : Ring) (xs : List ℕ)
    → IsValid r
    → length xs ≤ r.size
    → window r.size (write_all r xs).cell r.write_ptr (length xs) ≡ xs
unfolding write_all
window-write_all r [] v h = refl
window-write_all r (x ∷ xs) v h =
    ap₂ ◌∷◌
      (unfold write_one in
        write_all_outside (write_one r x) xs r.write_ptr (write_one-IsValid x v) (λ i lt e.
          mod_distinct r.size r.write_ptr 0 (suc i) v.write_in (omega arith) (omega arith)
            (at_zero v ∙ sym e ∙ step_place x i v))
        ∙ poke_self r.cell r.write_ptr x)
      (ap (λ p. window r.size (write_all (write_one r x) xs).cell p (length xs))
          (sym (write_one_place x v))
        ∙ rest (
            window-write_all (write_one r x) xs (write_one-IsValid x v)
              (unfold write_one in omega arith)))
  where
    rest :
        window
            (write_one r x).size
            (write_all (write_one r x) xs).cell
            (write_one r x).write_ptr
            (length xs)
          ≡ xs
        → window r.size (write_all (write_one r x) xs).cell (write_one r x).write_ptr (length xs)
          ≡ xs
    rest e = unfold write_one in e
