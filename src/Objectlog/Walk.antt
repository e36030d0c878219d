-- ===== src/Objectlog/Walk.antt =====
-- `get_next_entry` at an object leads to its end.
use native.Mathlib.Nat.{mod-add-mod}
use fx_ip.Base.{
  Bool-cases, List, Mem, ap, ap₂, arith, dec_lt, false, if◌then◌else◌, inl, inr, mod_once,
  mod_small, some, suc, sym, true, zero, ℕ, ◌%◌, ◌+◌, ◌<◌, ◌^◌, ◌∙◌, ◌≡◌, ◌≤◌,
}
use fx_ip.Objectlog.{
  Objectlog, came_round, fragment_len, get_next_entry, is_final, next_loop, skip_fragment,
}
use fx_ip.Objectlog.Object.{Object, last, more}
use fx_ip.Ring.{advance_read, read_one, u16_mod}
use fx_ip.Ring.Refine.{mod_shift}

pub Object-pos : {size : ℕ} {m : Mem} {p k : ℕ} {data' : List ℕ} → Object size m p data' k → 0 < k
Object-pos (last n a b c e f g) = omega arith
Object-pos (more n k' later a b c e o f g) = omega arith

-- Round a ring of `size`, from `offset`: the test sees the walk come back to `offset`, no sooner.
came_round_at :
    (size offset j s : ℕ)
    → offset < size
    → 0 < s
    → j + s ≤ size
    → came_round offset ((offset + j) % size) ((offset + (j + s)) % size) ≡ true
    → j + s ≡ size
came_round_at size offset j s h k l e = elim (dec_lt (offset + j) size) [
  | yes a ↦
      let p = mod_small (offset + j) size a in
      elim (dec_lt (offset + (j + s)) size) [
        | yes b ↦ let q = mod_small (offset + (j + s)) size b in ground arith
        | no b ↦
            let q = mod_once (offset + (j + s)) size (omega arith) (omega arith) in ground arith
      ]
  | no a ↦
      let p = mod_once (offset + j) size (omega arith) (omega arith) in
      let q = mod_once (offset + (j + s)) size (omega arith) (omega arith) in ground arith
]

-- the log with its scratch index at `q`
abbrev pub at_read : Objectlog → ℕ → Objectlog
at_read log q = record log { ring = record log.ring { read_ptr = q } }

skip_fragment_lem :
    (log : Objectlog) (q n : ℕ)
    → log.ring.size < 2 ^ 16
    → q + suc n ≤ log.ring.size
    → n < 128
    → fragment_len (log.ring.cell q) ≡ n
    → skip_fragment (at_read log q) ≡ (log.ring.cell q, at_read log ((q + suc n) % log.ring.size))
unfolding read_one advance_read
skip_fragment_lem log q n h k l e =
    ap (λ r. (log.ring.cell q, at_read log r))
      (ap₂ (λ a x. (a % log.ring.size + x) % u16_mod % log.ring.size) {y = q + 1} {v = n}
          (omega arith) (ground arith)
        ∙ ap (λ t. t % log.ring.size) {y = (q + 1) % log.ring.size + n}
            (small (dec_lt (q + 1) log.ring.size))
        ∙ mod_shift q n log.ring.size)
  where
    small :
        Dec (q + 1 < log.ring.size)
        → ((q + 1) % log.ring.size + n) % u16_mod ≡ (q + 1) % log.ring.size + n
    small (yes a) = omega (arith, mod_small (q + 1) log.ring.size a)
    small (no a) = omega (arith, mod_once (q + 1) log.ring.size (omega arith) (omega arith))

-- one round of the walk
pub next_loop-suc :
    (log : Objectlog) (fuel offset q n : ℕ)
    → log.ring.size < 2 ^ 16
    → q + suc n ≤ log.ring.size
    → n < 128
    → fragment_len (log.ring.cell q) ≡ n
    → next_loop (suc fuel) offset (at_read log q) ≡ (
        let q' = (q + suc n) % log.ring.size in
        if came_round offset q q'
        then some (log.ptr_first, at_read log q')
        else if is_final (log.ring.cell q)
        then some (q', at_read log q')
        else next_loop fuel offset (at_read log q'))
unfolding next_loop
next_loop-suc log fuel offset q n h k l e =
    ap
      (λ (skipped : ℕ × Objectlog).
        if came_round offset q skipped.1.ring.read_ptr
        then some (log.ptr_first, skipped.1)
        else if is_final skipped.0
        then some (skipped.1.ring.read_ptr, skipped.1)
        else next_loop fuel offset skipped.1)
      (skip_fragment_lem log q n h k l e)

module _ (log : Objectlog) (offset : ℕ) (h : log.ring.size < 2 ^ 16)
    (k : offset < log.ring.size) where
  step_place :
      (q j n : ℕ)
      → q ≡ (offset + j) % log.ring.size
      → (q + suc n) % log.ring.size ≡ (offset + (j + suc n)) % log.ring.size
  step_place q j n is =
      ap (λ t. (t + suc n) % log.ring.size) is
      ∙ mod-add-mod (offset + j) log.ring.size (suc n)
      ∙ ap (λ t. t % log.ring.size) (omega arith)

  came_round_only :
      (q j n : ℕ)
      → q ≡ (offset + j) % log.ring.size
      → j + suc n ≤ log.ring.size
      → came_round offset q ((q + suc n) % log.ring.size) ≡ true
      → j + suc n ≡ log.ring.size
  came_round_only q j n is fits e =
      came_round_at log.ring.size offset j (suc n) k (omega arith) fits
        (sym (ap₂ (came_round offset) is (step_place q j n is)) ∙ e)

  next_loop_walk :
      {q l : ℕ} {data' : List ℕ}
      → Object log.ring.size log.ring.cell q data' l
      → (fuel j : ℕ) → q ≡ (offset + j) % log.ring.size
      → j + l ≤ log.ring.size
      → (j + l ≡ log.ring.size → log.ptr_first ≡ offset)
      → l ≤ fuel
      → next_loop fuel offset (at_read log q)
        ≡ some
            ((offset + (j + l)) % log.ring.size, at_read log ((offset + (j + l)) % log.ring.size))
  unfolding next_loop
  next_loop_walk (last n a b c e f g) zero j is fits full fuel = absurd (omega arith)
  next_loop_walk (more n l' later a b c e o f g) zero j is fits full fuel = absurd (omega arith)
  next_loop_walk {q} {l} (last n a b c e f g) (suc fuel) j is fits full enough =
      let end : (q + suc n) % log.ring.size ≡ (offset + (j + l)) % log.ring.size =
        step_place q j n is ∙ ap (λ t. (offset + (j + t)) % log.ring.size) (sym g) in
      let final : is_final (log.ring.cell q) ≡ true = ground arith in
      next_loop-suc log fuel offset q n h c b (omega arith)
      ∙ elim (Bool-cases (came_round offset q ((q + suc n) % log.ring.size))) [
        | inl round ↦
            let all = came_round_only q j n is (omega arith) round in
            rw round (
              ap₂ (λ x y. some (x, at_read log y))
                (full (omega arith)
                  ∙ omega (
                    arith,
                    mod_once (offset + (j + l)) log.ring.size (omega arith) (omega arith),
                  ))
                end)
        | inr on ↦ rw (on, final) (ap (λ x. some (x, at_read log x)) end)
      ]
  next_loop_walk {q} {l} (more n l' later a b c e o f g) (suc fuel) j is fits full enough =
      let pos = Object-pos o in
      let open' : is_final (log.ring.cell q) ≡ false = ground arith in
      next_loop-suc log fuel offset q n h c b (omega arith)
      ∙ elim (Bool-cases (came_round offset q ((q + suc n) % log.ring.size))) [
        | inl round ↦ absurd (omega (arith, came_round_only q j n is (omega arith) round))
        | inr on ↦
            rw (on, open')
              (next_loop_walk o fuel (j + suc n) (step_place q j n is) (omega arith)
                  (λ z. full (omega arith)) (omega arith)
                ∙ ap
                    (λ t.
                      some
                        ((offset + t) % log.ring.size, at_read log ((offset + t) % log.ring.size)))
                    (omega arith))
      ]

-- From an object, `get_next_entry` goes to the byte behind it: for an object that takes the whole
-- storage, if the object is the first entry.
pub get_next_entry_lem :
    (log : Objectlog) {p k : ℕ} {data' : List ℕ}
    → log.ring.size < 2 ^ 16
    → Object log.ring.size log.ring.cell p data' k
    → p < log.ring.size
    → k ≤ log.ring.size
    → (k ≡ log.ring.size → log.ptr_first ≡ p)
    → get_next_entry log p ≡ some ((p + k) % log.ring.size, at_read log ((p + k) % log.ring.size))
unfolding get_next_entry
get_next_entry_lem log {p} {k} h o a b full =
    next_loop_walk log p h a o log.ring.size 0
      (sym (mod_small (p + 0) log.ring.size (omega arith) ∙ omega arith)) (omega arith)
      (λ z. full (omega arith)) b
    ∙ ap (λ t. some ((p + t) % log.ring.size, at_read log ((p + t) % log.ring.size))) (omega arith)
