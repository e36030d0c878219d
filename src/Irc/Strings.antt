-- ===== src/Irc/Strings.antt =====
-- Strings in a memory: where they end, and which writes leave them.
use fx_ip.Base.{
  List, Mem, [], ap, ap₂, arith, false, inl, inr, length, memchr, peek, peek_agree, poke, poke_ne,
  refl, some, string_at, strlen, strlen_within, suc, true, zero, ℕ, ◌++◌, ◌+◌, ◌<◌, ◌==◌, ◌^◌, ◌∙◌,
  ◌∷◌, ◌≡◌, ◌≤◌, ◌⊎◌, max_string,
}
use fx_ip.Psock.Line.{Lacks}

-- These bytes stand at `p`.
abbrev pub At : Mem → ℕ → List ℕ → Type 0
At m p xs = peek m p (length xs) ≡ xs

pub At-cons : (m : Mem) (p x : ℕ) (xs : List ℕ) → At m p (x ∷ xs) → (m p ≡ x) × At m (p + 1) xs
At-cons m p x xs h = (cc, cc)

pub At-append :
    (m : Mem) (p : ℕ) (xs ys : List ℕ) → At m p (xs ++ ys) → At m p xs × At m (p + length xs) ys
At-append m p [] ys h = (refl, ap (λ q. peek m q (length ys)) (omega arith) ∙ h)
At-append m p (x ∷ xs) ys h =
    let (a, b) = At-cons m p x (xs ++ ys) h in
    let (c, e) = At-append m (p + 1) xs ys b in
    (ap₂ ◌∷◌ a c, ap (λ q. peek m q (length ys)) (omega arith) ∙ e)

-- A write beside a text leaves it.
pub At-poke :
    (m : Mem) (p j v : ℕ) (xs : List ℕ)
    → (j < p) ⊎ (p + length xs ≤ j)
    → At m p xs
    → At (poke m j v) p xs
At-poke m p j v xs w h =
    peek_agree (poke m j v) m p (length xs) (λ i lo hi.
      poke_ne m j i v (λ e. elim w [ inl a ↦ absurd (omega arith) | inr a ↦ absurd (omega arith) ]))
    ∙ h

-- A text without NUL, before a NUL, is a string.
strlen_within_lem :
    (n : ℕ) (m : Mem) (p : ℕ) (xs : List ℕ)
    → Lacks 0 xs
    → At m p xs
    → m (p + length xs) ≡ 0
    → length xs < n
    → strlen_within n m p ≡ length xs
unfolding strlen_within
strlen_within_lem zero m p xs l h e k = absurd (omega arith)
strlen_within_lem (suc n) m p [] l h e k =
    let z : (m p == 0) ≡ true = ground (arith, ap m {x = p + 0} {y = p} (omega arith)) in rw z refl
strlen_within_lem (suc n) m p (x ∷ xs) l h e k =
    let (a, b) = At-cons m p x xs h in
    let z : (m p == 0) ≡ false = ground (arith, l) in
    rw z (ap suc (strlen_within_lem n m (p + 1) xs l.1 b (ap m (omega arith) ∙ e) (omega arith)))

pub strlen_lem :
    (m : Mem) (p : ℕ) (xs : List ℕ)
    → Lacks 0 xs
    → At m p xs
    → m (p + length xs) ≡ 0
    → length xs < 2 ^ 16
    → strlen m p ≡ length xs
unfolding strlen
strlen_lem m p xs l h e k = strlen_within_lem max_string m p xs l h e k

pub string_at_lem :
    (m : Mem) (p : ℕ) (xs : List ℕ)
    → Lacks 0 xs
    → At m p xs
    → m (p + length xs) ≡ 0
    → length xs < 2 ^ 16
    → string_at m p ≡ xs
string_at_lem m p xs l h e k = ap (peek m p) (strlen_lem m p xs l h e k) ∙ h

pub memchr_lem :
    (n : ℕ) (m : Mem) (p c : ℕ) (xs : List ℕ)
    → Lacks c xs
    → At m p xs
    → m (p + length xs) ≡ c
    → length xs < n
    → memchr m p c n ≡ some (p + length xs)
unfolding memchr
memchr_lem zero m p c xs l h e k = absurd (omega arith)
memchr_lem (suc n) m p c [] l h e k =
    let z : (m p == c) ≡ true = ground (arith, ap m {x = p + 0} {y = p} (omega arith)) in
    rw z (ap some (omega arith))
memchr_lem (suc n) m p c (x ∷ xs) l h e k =
    let (a, b) = At-cons m p x xs h in
    let z : (m p == c) ≡ false = ground (arith, l) in
    rw z (
      memchr_lem n m (p + 1) c xs l.1 b (ap m (omega arith) ∙ e) (omega arith)
      ∙ ap some (omega arith))

-- NULs written at these places, one after the other
abbrev pub zeros : Mem → List ℕ → Mem
zeros m [] = m
zeros m (j ∷ js) = zeros (poke m j 0) js

abbrev pub Outside : ℕ → ℕ → List ℕ → Type 0
Outside p n [] = Unit {0}
Outside p n (j ∷ js) = ((j < p) ⊎ (p + n ≤ j)) × Outside p n js

pub At-zeros :
    (m : Mem) (p : ℕ) (xs js : List ℕ) → At m p xs → Outside p (length xs) js → At (zeros m js) p xs
At-zeros m p xs [] h o = h
At-zeros m p xs (j ∷ js) h o = At-zeros (poke m j 0) p xs js (At-poke m p j 0 xs o.0 h) o.1

pub cell-zeros : (m : Mem) (i : ℕ) (js : List ℕ) → Outside i 1 js → zeros m js i ≡ m i
cell-zeros m i [] o = refl
cell-zeros m i (j ∷ js) o =
    cell-zeros (poke m j 0) i js o.1
    ∙ poke_ne m j i 0
        (λ e. elim o.0 [ inl a ↦ absurd (omega arith) | inr a ↦ absurd (omega arith) ])

-- A place where one of the NULs is written holds it, whatever was written before.
pub zero-zeros : (m : Mem) (i : ℕ) (js : List ℕ) → m i ≡ 0 → zeros m js i ≡ 0
zero-zeros m i [] h = h
zero-zeros m i (j ∷ js) h = zero-zeros (poke m j 0) i js (ground (arith, h))

pub Lacks-append : (c : ℕ) (xs ys : List ℕ) → Lacks c xs → Lacks c ys → Lacks c (xs ++ ys)
Lacks-append c [] ys h k = k
Lacks-append c (x ∷ xs) ys h k = (h.0, Lacks-append c xs ys h.1 k)

-- The string and the first place of a byte, in a memory where NULs were written beside them.
module _ (m : Mem) (js : List ℕ) (p : ℕ) (xs : List ℕ) (there : At m p xs)
    (beside : Outside p (length xs) js) where
  pub zeros-strlen :
      Lacks 0 xs
      → zeros m js (p + length xs) ≡ 0
      → length xs < 2 ^ 16
      → strlen (zeros m js) p ≡ length xs
  zeros-strlen l z k = strlen_lem (zeros m js) p xs l (At-zeros m p xs js there beside) z k

  pub zeros-string_at :
      Lacks 0 xs
      → zeros m js (p + length xs) ≡ 0
      → length xs < 2 ^ 16
      → string_at (zeros m js) p ≡ xs
  zeros-string_at l z k = string_at_lem (zeros m js) p xs l (At-zeros m p xs js there beside) z k

  pub zeros-memchr :
      (n c : ℕ)
      → Lacks c xs
      → m (p + length xs) ≡ c
      → Outside (p + length xs) 1 js
      → length xs < n
      → memchr (zeros m js) p c n ≡ some (p + length xs)
  zeros-memchr n c l e o k =
      memchr_lem n (zeros m js) p c xs l (At-zeros m p xs js there beside)
        (cell-zeros m (p + length xs) js o ∙ e) k
