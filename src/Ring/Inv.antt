-- ===== src/Ring/Inv.antt =====
-- The representation invariant of `ringbuffer_t`: the indices stay inside the storage.
use fx_ip.Base.{
  refl, ℕ, ◌+◌, ◌-◌, ◌%◌, ◌≤◌, ◌<◌, ◌≡◌, List, leb, Bool-cases, inl, inr, ◌⊎◌, ◌∙◌, dec_lt,
  mod_small, mod_once, arith, Mem,
}
use fx_ip.Ring.{Ring, u16_mod, init, available, read_one, write_one, write, advance_read}

pub record IsValid (r : Ring) : Type 0 where
  pub small : r.size < u16_mod
  pub read_in : r.read_ptr < r.size
  pub write_in : r.write_ptr < r.size

pub init-IsValid : (m : Mem) (size : ℕ) → 0 < size → size < u16_mod → IsValid (init m size)
unfolding init
init-IsValid m size h k = omega arith

pub read_one-IsValid : {r : Ring} → IsValid r → IsValid (read_one r).1
unfolding read_one
read_one-IsValid v = omega arith

pub write_one-IsValid : {r : Ring} (b : ℕ) → IsValid r → IsValid (write_one r b)
unfolding write_one
write_one-IsValid b v = omega arith

pub advance_read-IsValid : {r : Ring} (n : ℕ) → IsValid r → IsValid (advance_read r n)
unfolding advance_read
advance_read-IsValid n v = omega arith

pub write-IsValid : {r : Ring} (xs : List ℕ) → IsValid r → IsValid (write r xs)
unfolding write
write-IsValid {r} xs v = ground arith

available_cases :
    (r : Ring)
    → (r.size < u16_mod)
    → (r.read_ptr < r.size)
    → ((r.read_ptr ≤ r.write_ptr) × (available r ≡ r.write_ptr - r.read_ptr))
      ⊎ ((r.write_ptr < r.read_ptr) × (available r ≡ r.size - r.read_ptr + r.write_ptr))
unfolding available
available_cases r h k = elim (Bool-cases (leb r.read_ptr r.write_ptr)) [
  | inl e ↦ inl (ground arith, rw e)
  | inr e ↦ inr (ground arith, ground arith)
]

-- In a valid ring the count of available bytes is below the size, and leads from the read index to
-- the write index round the ring.
pub available_lem :
    {r : Ring}
    → IsValid r
    → (available r < r.size) × ((r.read_ptr + available r) % r.size ≡ r.write_ptr)
available_lem {r} v = elim (available_cases r v.small v.read_in) [
  | inl (h, e) ↦
      (omega arith, mod_small (r.read_ptr + available r) r.size (omega arith) ∙ omega arith)
  | inr (h, e) ↦ (
    omega arith,
    mod_once (r.read_ptr + available r) r.size (omega arith) (omega arith) ∙ omega arith,
  )
]

-- A distance that leads from the read index to the write index is the count.
pub available_unique :
    {r : Ring} (n : ℕ)
    → IsValid r
    → n < r.size
    → (r.read_ptr + n) % r.size ≡ r.write_ptr
    → available r ≡ n
available_unique {r} n v h e = elim (available_cases r v.small v.read_in) [
  | inl (p, q) ↦ elim (dec_lt (r.read_ptr + n) r.size) [
    | yes s ↦ omega (arith, mod_small (r.read_ptr + n) r.size s)
    | no s ↦ omega (arith, mod_once (r.read_ptr + n) r.size (omega arith) (omega arith))
  ]
  | inr (p, q) ↦ elim (dec_lt (r.read_ptr + n) r.size) [
    | yes s ↦ omega (arith, mod_small (r.read_ptr + n) r.size s)
    | no s ↦ omega (arith, mod_once (r.read_ptr + n) r.size (omega arith) (omega arith))
  ]
]

pub size-write : (r : Ring) (xs : List ℕ) → (write r xs).size ≡ r.size
unfolding write
size-write r xs = ground arith

pub size-read_one : (r : Ring) → (read_one r).1.size ≡ r.size
unfolding read_one
size-read_one r = refl
