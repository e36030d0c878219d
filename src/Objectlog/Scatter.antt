-- ===== src/Objectlog/Scatter.antt =====
-- What is left of a scatter list after some of its bytes were taken.
use fx_ip.Base.{
  List, [], ap, arith, drop, inl, inr, length, refl, suc, sym, take, true, zero, ℕ, ◌++◌, ◌+◌, ◌<◌,
  ◌∙◌, ◌∷◌, ◌≡◌, ◌≤◌, ◌⊎◌,
}
use fx_ip.Objectlog.{at_end, current, next_in_list}
use fx_ip.Objectlog.Format.{flat, remaining}

pub take-append : (k : ℕ) (xs ys : List ℕ) → k ≤ length xs → take k (xs ++ ys) ≡ take k xs
take-append zero xs ys h = refl
take-append (suc k) [] ys h = absurd (omega arith)
take-append (suc k) (x ∷ xs) ys h = ap (◌∷◌ x) (take-append k xs ys (omega arith))

pub drop-append : (k : ℕ) (xs ys : List ℕ) → k ≤ length xs → drop k (xs ++ ys) ≡ drop k xs ++ ys
drop-append zero xs ys h = refl
drop-append (suc k) [] ys h = absurd (omega arith)
drop-append (suc k) (x ∷ xs) ys h = drop-append k xs ys (omega arith)

pub drop_nil : (k : ℕ) → drop {A = ℕ} k [] ≡ []
drop_nil zero = refl
drop_nil (suc k) = refl

pub drop-drop : (k n : ℕ) (xs : List ℕ) → drop k (drop n xs) ≡ drop (n + k) xs
drop-drop k zero xs = ap (λ t. drop t xs) (omega arith)
drop-drop k (suc n) [] = drop_nil k ∙ sym (drop_nil (suc n + k))
drop-drop k (suc n) (x ∷ xs) =
    drop-drop k n xs ∙ ap (λ t. drop t (x ∷ xs)) {x = suc (n + k)} (omega arith)

pub drop_all : (k : ℕ) (xs : List ℕ) → length xs ≤ k → drop k xs ≡ []
drop_all zero [] h = refl
drop_all zero (x ∷ xs) h = absurd (omega arith)
drop_all (suc k) [] h = refl
drop_all (suc k) (x ∷ xs) h = drop_all k xs (omega arith)

-- the list of entries, split at the current one
pub remaining-current :
    (offset : ℕ) (sc : List (List ℕ))
    → offset < length (current sc)
    → remaining offset sc ≡ drop offset (current sc) ++ flat (next_in_list sc)
remaining-current offset [] h = absurd (omega arith)
remaining-current offset ([] ∷ later) h = absurd (omega arith)
remaining-current offset ((x ∷ xs) ∷ later) h = refl

pub remaining_end : (offset : ℕ) (sc : List (List ℕ)) → at_end sc ≡ true → remaining offset sc ≡ []
remaining_end offset [] h = refl
remaining_end offset ([] ∷ later) h = refl
remaining_end offset ((x ∷ xs) ∷ later) h = absurd (cc)

pub remaining_zero : (sc : List (List ℕ)) → remaining 0 sc ≡ flat sc
remaining_zero [] = refl
remaining_zero ([] ∷ later) = refl
remaining_zero ((x ∷ xs) ∷ later) = refl

-- the start of an entry
pub entry_start : (sc : List (List ℕ)) → (at_end sc ≡ true) ⊎ (0 < length (current sc))
entry_start [] = inl refl
entry_start ([] ∷ later) = inl refl
entry_start ((x ∷ xs) ∷ later) = inr (omega arith)
