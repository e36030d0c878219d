-- ===== src/Objectlog/Entries.antt =====
-- Objects that stand one behind the other, and that they do not depend on the other cells.
use native.Mathlib.Nat.{mod-add-mod}
use mathlib.Core.Path.{subst}
use fx_ip.Base.{
  List, Mem, [], ap, arith, mod_small, peek, peek_agree, refl, suc, sym, ℕ, ◌%◌, ◌++◌, ◌+◌, ◌-◌,
  ◌<◌, ◌∙◌, ◌∷◌, ◌≡◌, ◌≤◌,
}
use fx_ip.Objectlog.Object.{Object, last, more}

module _ (size : ℕ) where
  -- the objects from `p` on, in `k` bytes
  abbrev pub Entries : Mem → ℕ → List (List ℕ) → ℕ → Type 0
  Entries m p [] k = k ≡ 0
  Entries m p (d ∷ ds) k =
      (k1 : ℕ) × (k2 : ℕ) × Object size m p d k1 × Entries m ((p + k1) % size) ds k2 × (k ≡ k1 + k2)

  pub shift : (p a b : ℕ) → ((p + a) % size + b) % size ≡ (p + (a + b)) % size
  shift p a b = mod-add-mod (p + a) size b ∙ ap (λ t. t % size) (omega arith)

  pub Object-place : {m : Mem} {p k : ℕ} {d : List ℕ} → Object size m p d k → p < size
  Object-place (last n a b c e f g) = a
  Object-place (more n k' later a b c e o f g) = a

  pub Entries-snoc :
      {m : Mem} (p : ℕ) (ds : List (List ℕ)) (k : ℕ) {d : List ℕ} {l : ℕ}
      → p < size
      → Entries m p ds k
      → Object size m ((p + k) % size) d l
      → Entries m p (ds ++ (d ∷ [])) (k + l)
  Entries-snoc {m} p [] k {d} {l} h e o = (
    l,
    0,
    subst (λ q. Object size m q d l)
        (ap (λ t. (p + t) % size) e ∙ mod_small (p + 0) size (omega arith) ∙ omega arith) o,
    refl,
    omega arith,
  )
  Entries-snoc {m} p (d' ∷ ds) k {d} {l} h (k1, k2, o', es, e) o = (
    k1,
    k2 + l,
    o',
    Entries-snoc ((p + k1) % size) ds k2 (omega arith) es
        (subst (λ q. Object size m q d l) (ap (λ t. (p + t) % size) e ∙ sym (shift p k1 k2)) o),
    omega arith,
  )

  -- the cells of `k` bytes from `p` on
  abbrev pub Agree : Mem → Mem → ℕ → ℕ → Type 0
  Agree m m' p k = (i : ℕ) → i < k → m' ((p + i) % size) ≡ m ((p + i) % size)

  Agree-later : (m m' : Mem) (p a b : ℕ) → Agree m m' p (a + b) → Agree m m' ((p + a) % size) b
  Agree-later m m' p a b h i lt =
      ap m' (shift p a i) ∙ h (a + i) (omega arith) ∙ ap m (sym (shift p a i))

  Agree-first : (m m' : Mem) (p k : ℕ) → p < size → 0 < k → Agree m m' p k → m' p ≡ m p
  Agree-first m m' p k lt many h =
      let at_zero : (p + 0) % size ≡ p = mod_small (p + 0) size (omega arith) ∙ omega arith in
      ap m' (sym at_zero) ∙ h 0 many ∙ ap m at_zero

  Agree-peek :
      (m m' : Mem) (p n : ℕ)
      → p + suc n ≤ size
      → Agree m m' p (suc n)
      → peek m (p + 1) n ≡ peek m' (p + 1) n
  Agree-peek m m' p n fits h = peek_agree m m' (p + 1) n (λ j lo hi.
      let at_j : (p + (j - p)) % size ≡ j =
        mod_small (p + (j - p)) size (omega arith) ∙ omega arith in
      sym (ap m' (sym at_j) ∙ h (j - p) (omega arith) ∙ ap m at_j))

  pub Object-Agree :
      {m m' : Mem} {p k : ℕ} {d : List ℕ}
      → Object size m p d k
      → Agree m m' p k
      → Object size m' p d k
  Object-Agree {m} {m'} {p} (last n a b c e f g) h =
      let h' : Agree m m' p (suc n) = λ i lt. h i (omega arith) in
      last n a b c (Agree-first m m' p (suc n) a (omega arith) h' ∙ e)
        (f ∙ Agree-peek m m' p n c h') g
  Object-Agree {m} {m'} {p} (more n k' later a b c e o f g) h =
      let h' : Agree m m' p (suc n + k') = λ i lt. h i (omega arith) in
      let now : Agree m m' p (suc n) = λ i lt. h i (omega arith) in
      more n k' later a b c (Agree-first m m' p (suc n) a (omega arith) now ∙ e)
        (Object-Agree o (Agree-later m m' p (suc n) k' h'))
        (f ∙ ap (λ t. t ++ later) (Agree-peek m m' p n c now)) g

  pub Entries-Agree :
      (m m' : Mem) (p : ℕ) (ds : List (List ℕ)) (k : ℕ)
      → Entries m p ds k
      → Agree m m' p k
      → Entries m' p ds k
  Entries-Agree m m' p [] k e h = e
  Entries-Agree m m' p (d ∷ ds) k (k1, k2, o, es, e) h =
      let h' : Agree m m' p (k1 + k2) = λ i lt. h i (omega arith) in
      (
        k1,
        k2,
        Object-Agree o (λ i lt. h i (omega arith)),
        Entries-Agree m m' ((p + k1) % size) ds k2 es (Agree-later m m' p k1 k2 h'),
        e,
      )
