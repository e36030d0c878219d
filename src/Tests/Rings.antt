-- ===== src/Tests/Rings.antt =====
-- Tests of src/ringbuffer.h: a ring of four bytes whose queue goes round the end of the storage.
use fx_ip.Base.{[], arith, if◌then◌else◌, refl, ◌++◌, ◌+◌, ◌==◌, ◌∷◌, ◌≡◌}
use fx_ip.Ring.{Ring, available, write}
use fx_ip.Ring.Bulk.{contents-write, write-eq-write_all, write_all}
use fx_ip.Ring.Inv.{IsValid}
use fx_ip.Ring.Refine.{contents}

-- it holds 6 and 7, at index 3 and 0
abbrev small : Ring
small = record { cell = λ i. if i == 3 then 6 else 7 + i; read_ptr = 3; write_ptr = 1; size = 4 }

-- it holds 7 and 8, and a write of two bytes would go round
abbrev straight : Ring
straight = record { cell = λ i. 7 + i; read_ptr = 1; write_ptr = 3; size = 6 }

small-IsValid : IsValid small
small-IsValid = omega arith

straight-IsValid : IsValid straight
straight-IsValid = omega arith

available-small : available small ≡ 2
unfolding available
available-small = refl

available-straight : available straight ≡ 2
unfolding available
available-straight = refl

contents_small : contents small ≡ 6 ∷ 7 ∷ []
unfolding available
contents_small = refl

contents-write_example :
    contents (write straight (4 ∷ 5 ∷ 6 ∷ [])) ≡ contents straight ++ 4 ∷ 5 ∷ 6 ∷ []
contents-write_example =
    contents-write {r = straight} (4 ∷ 5 ∷ 6 ∷ []) straight-IsValid
      (omega (arith, available-straight))

write-eq-write_all_example :
    write straight (1 ∷ 2 ∷ 3 ∷ 4 ∷ 5 ∷ 6 ∷ []) ≡ write_all straight (1 ∷ 2 ∷ 3 ∷ 4 ∷ 5 ∷ 6 ∷ [])
write-eq-write_all_example =
    write-eq-write_all {r = straight} (1 ∷ 2 ∷ 3 ∷ 4 ∷ 5 ∷ 6 ∷ []) straight-IsValid (omega arith)
