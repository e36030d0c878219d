-- ===== src/Objectlog/Window.antt =====
-- Reading round the storage in parts.
use fx_ip.Base.{
  List, Mem, [], ap, ap₂, arith, length, mod_small, peek, refl, suc, sym, zero, ℕ, ◌%◌, ◌++◌, ◌+◌,
  ◌<◌, ◌∙◌, ◌∷◌, ◌≡◌, ◌≤◌,
}
use fx_ip.Ring.Refine.{mod_shift, window}

module _ (size : ℕ) (m : Mem) where
  pub window_cons :
      (p x : ℕ) (xs : List ℕ)
      → window size m p (length (x ∷ xs)) ≡ x ∷ xs
      → (m p ≡ x) × (window size m ((p + 1) % size) (length xs) ≡ xs)
  window_cons p x xs h = (cc, cc)

  pub window_split :
      (p : ℕ) (xs ys : List ℕ)
      → p < size
      → window size m p (length (xs ++ ys)) ≡ xs ++ ys
      → (window size m p (length xs) ≡ xs)
        × (window size m ((p + length xs) % size) (length ys) ≡ ys)
  window_split p [] ys k h = (
    refl,
    ap (λ q. window size m q (length ys)) (mod_small (p + 0) size (omega arith) ∙ omega arith) ∙ h,
  )
  window_split p (x ∷ xs) ys k h =
      let (a, b) = window_cons p x (xs ++ ys) h in
      let (c, e) = window_split ((p + 1) % size) xs ys (omega arith) b in
      (ap₂ ◌∷◌ a c, ap (λ q. window size m q (length ys)) (sym (mod_shift p (length xs) size)) ∙ e)

  pub window-append :
      (p a b : ℕ)
      → p < size
      → window size m p (a + b) ≡ window size m p a ++ window size m ((p + a) % size) b
  window-append p zero b k =
      ap₂ (window size m) (sym (mod_small (p + 0) size (omega arith) ∙ omega arith)) (omega arith)
  window-append p (suc a) b k =
      ap (window size m p) {y = suc (a + b)} (omega arith)
      ∙ ap (◌∷◌ (m p)) (
          window-append ((p + 1) % size) a b (omega arith)
          ∙ ap (λ q. window size m ((p + 1) % size) a ++ window size m q b) (mod_shift p a size))

  pub window-peek : (p n : ℕ) → p + n ≤ size → p < size → window size m p n ≡ peek m p n
  window-peek p zero h k = refl
  window-peek p (suc zero) h k = refl
  window-peek p (suc (suc n)) h k = ap (◌∷◌ (m p)) (
      ap (λ q. window size m q (suc n)) (mod_small (p + 1) size (omega arith))
      ∙ window-peek (p + 1) (suc n) (omega arith) (omega arith))

  -- the data behind a header
  pub window-peek_next :
      (p n : ℕ) → p + suc n ≤ size → window size m ((p + 1) % size) n ≡ peek m (p + 1) n
  window-peek_next p zero h = refl
  window-peek_next p (suc n) h =
      ap (λ q. window size m q (suc n)) (mod_small (p + 1) size (omega arith))
      ∙ window-peek (p + 1) (suc n) (omega arith) (omega arith)
