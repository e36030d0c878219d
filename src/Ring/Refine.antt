-- ===== src/Ring/Refine.antt =====
-- A valid ring holds a queue of bytes: `ringbuffer_write_one` appends, `ringbuffer_read_one` takes
-- from the front.
use native.Mathlib.Nat.{mod-add-mod}
use fx_ip.Base.{
  ℕ, zero, suc, ◌+◌, ◌-◌, ◌%◌, ◌<◌, ◌≡◌, ◌≢◌, refl, ◌∙◌, ap, ap₂, List, [], ◌∷◌, ◌++◌, arith, Mem,
  poke, poke_ne, poke_self, dec_lt, mod_small, mod_once, sym, length,
}
use fx_ip.Ring.{Ring, available, read_one, write_one}
use fx_ip.Ring.Inv.{IsValid, available_lem, available_unique, read_one-IsValid, write_one-IsValid}

pub mod_shift : (h n size : ℕ) → ((h + 1) % size + n) % size ≡ (h + suc n) % size
mod_shift h n size = mod-add-mod (h + 1) size n ∙ ap (λ t. t % size) (omega arith)

module _ (size : ℕ) where
  -- the `n` bytes from index `h` on, going round the storage
  abbrev pub window : Mem → ℕ → ℕ → List ℕ
  window m h zero = []
  window m h (suc n) = m h ∷ window m ((h + 1) % size) n

  pub window_snoc :
      (m : Mem) (h n : ℕ)
      → h < size
      → window m h (suc n) ≡ window m h n ++ (m ((h + n) % size) ∷ [])
  window_snoc m h zero k =
      ap (λ t. m t ∷ []) (sym (mod_small (h + 0) size (omega arith) ∙ omega arith))
  window_snoc m h (suc n) k = ap (◌∷◌ (m h)) (
      window_snoc m ((h + 1) % size) n (omega arith)
      ∙ ap (λ t. window m ((h + 1) % size) n ++ (m t ∷ [])) (mod_shift h n size))

  pub window-poke :
      (m : Mem) (h n i x : ℕ)
      → ((k : ℕ) → k < n → (h + k) % size ≢ i)
      → h < size
      → window (poke m i x) h n ≡ window m h n
  window-poke m h zero i x out k = refl
  window-poke m h (suc n) i x out k =
      ap₂ ◌∷◌
        (poke_ne m i h x
          (λ e. out 0 (omega arith) (mod_small (h + 0) size (omega arith) ∙ omega arith)))
        (window-poke m ((h + 1) % size) n i x
          (λ j lt e. out (suc j) (omega arith) (sym (mod_shift h j size) ∙ e)) (omega arith))

  pub length-window : (m : Mem) (h n : ℕ) → length (window m h n) ≡ n
  length-window m h zero = refl
  length-window m h (suc n) = ap suc (length-window m ((h + 1) % size) n)

  -- Two steps of different length, both shorter than once round, end in different places.
  pub mod_distinct : (h k n : ℕ) → h < size → k < n → n < size → (h + k) % size ≢ (h + n) % size
  mod_distinct h k n p q r e = elim (dec_lt (h + k) size) [
    | yes s ↦ elim (dec_lt (h + n) size) [
      | yes t ↦ omega (arith, mod_small (h + k) size s, mod_small (h + n) size t)
      | no t ↦
          omega (arith, mod_small (h + k) size s, mod_once (h + n) size (omega arith) (omega arith))
    ]
    | no s ↦ omega (
      arith,
      mod_once (h + k) size (omega arith) (omega arith),
      mod_once (h + n) size (omega arith) (omega arith),
    )
  ]

-- the queue that a ring stands for
abbrev pub contents : Ring → List ℕ
contents r = window r.size r.cell r.read_ptr (available r)

pub length-contents : (r : Ring) → length (contents r) ≡ available r
length-contents r = length-window r.size r.cell r.read_ptr (available r)

module _ {r : Ring} (v : IsValid r) where
  pub available-write_one :
      (b : ℕ) → available r + 1 < r.size → available (write_one r b) ≡ available r + 1
  unfolding write_one
  available-write_one b h = available_unique (available r + 1) (write_one-IsValid b v) h (
      ap (λ t. t % r.size) (omega arith)
      ∙ sym (mod-add-mod (r.read_ptr + available r) r.size 1)
      ∙ ap (λ t. (t + 1) % r.size) (available_lem v).1
      ∙ ap (λ t. t % r.size) (omega arith))

  -- A byte written to a valid ring with two free places or more is appended to the queue.
  pub contents-write_one :
      (b : ℕ) → available r + 1 < r.size → contents (write_one r b) ≡ contents r ++ (b ∷ [])
  unfolding write_one
  contents-write_one b h =
      ap (window r.size (poke r.cell r.write_ptr b) r.read_ptr) {y = suc (available r)}
        (available-write_one b h ∙ omega arith)
      ∙ window_snoc r.size (poke r.cell r.write_ptr b) r.read_ptr (available r) v.read_in
      ∙ ap₂ (λ q x. q ++ (x ∷ []))
          (window-poke r.size r.cell r.read_ptr (available r) r.write_ptr b
            (λ k lt e.
              mod_distinct r.size r.read_ptr k (available r) v.read_in lt (available_lem v).0
                (e ∙ sym (available_lem v).1))
            v.read_in)
          (ap (poke r.cell r.write_ptr b) (available_lem v).1 ∙ poke_self r.cell r.write_ptr b)

  pub available-read_one : 0 < available r → available (read_one r).1 ≡ available r - 1
  unfolding read_one
  available-read_one h =
      available_unique (available r - 1) (read_one-IsValid v) (omega (arith, (available_lem v).0)) (
        ap (λ t. (t % r.size + (available r - 1)) % r.size) (omega arith)
        ∙ mod-add-mod (r.read_ptr + 1) r.size (available r - 1)
        ∙ ap (λ t. t % r.size) (omega arith)
        ∙ (available_lem v).1)

  -- A read from a valid ring that is not empty takes the first byte of the queue.
  pub contents-read_one : 0 < available r → contents r ≡ (read_one r).0 ∷ contents (read_one r).1
  unfolding read_one
  contents-read_one h =
      ap (window r.size r.cell r.read_ptr) {y = suc (available r - 1)} (omega arith)
      ∙ ap (◌∷◌ (r.cell r.read_ptr)) (
          ap₂ (window r.size r.cell) (ap (λ t. t % r.size) (omega arith))
            (sym (available-read_one h)))
