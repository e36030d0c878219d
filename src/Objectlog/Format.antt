-- ===== src/Objectlog/Format.antt =====
-- The bytes of an object in the log, as a function of its data and of the place where it starts.
use fx_ip.Base.{
  List, [], ap, ap₂, arith, drop, false, if◌then◌else◌, length, min, mod_small, refl, suc, sym,
  take, true, zero, ℕ, ◌%◌, ◌++◌, ◌+◌, ◌-◌, ◌<◌, ◌==◌, ◌∙◌, ◌∷◌, ◌≡◌, ◌≢◌, ◌≤◌,
}
use fx_ip.Objectlog.{fragment_hdr, max_fragment_len}
use fx_ip.Ring.Refine.{mod_shift}

-- the data of a scatter list, from `offset` in its first entry on
abbrev pub flat : List (List ℕ) → List ℕ
flat [] = []
flat ([] ∷ later) = []
flat ((x ∷ xs) ∷ later) = x ∷ xs ++ flat later

abbrev pub remaining : ℕ → List (List ℕ) → List ℕ
remaining offset [] = []
remaining offset ([] ∷ later) = []
remaining offset ((x ∷ xs) ∷ later) = drop offset (x ∷ xs) ++ flat later

module _ (size : ℕ) where
  -- how many bytes of data a fragment that starts at `p` can hold
  abbrev pub room : ℕ → ℕ
  room p = min max_fragment_len (size - p - 1)

  -- where the fragment starts that holds the next byte: not in the last byte of the storage
  abbrev pub start : ℕ → ℕ
  start p = if room p == 0 then 0 else p

  -- the empty fragment in the last byte of the storage
  abbrev pub filler : ℕ → List ℕ
  filler p = if room p == 0 then 0 ∷ [] else []

  abbrev pub header : ℕ → ℕ → ℕ
  header p n = fragment_hdr (min (room p) n) (n == min (room p) n)

  -- The bytes of the data from `p` on, where the current fragment has `left` bytes left.
  unfoldable pub encode : ℕ → ℕ → List ℕ → List ℕ
  encode left p [] = []
  encode (suc left) p (x ∷ xs) = x ∷ encode left ((p + 1) % size) xs
  encode zero p (x ∷ xs) =
      filler p
      ++ header (start p) (suc (length xs))
        ∷ x
        ∷ encode (room (start p) - 1) ((start p + 2) % size) xs

  pub encode_chunk :
      (k left p : ℕ) (data' : List ℕ)
      → p < size
      → k ≤ left
      → k ≤ length data'
      → encode left p data' ≡ take k data' ++ encode (left - k) ((p + k) % size) (drop k data')
  unfolding encode
  encode_chunk zero left p d h a b =
      ap₂ (λ l q. encode l q d) (omega arith)
        (sym (mod_small (p + 0) size (omega arith) ∙ omega arith))
  encode_chunk (suc k) zero p d h a b = absurd (omega arith)
  encode_chunk (suc k) (suc left) p [] h a b = absurd (omega arith)
  encode_chunk (suc k) (suc left) p (x ∷ xs) h a b = ap (◌∷◌ x) (
      encode_chunk k left ((p + 1) % size) xs (omega arith) (omega arith) (omega arith)
      ∙ ap₂ (λ l q. take k xs ++ encode l q (drop k xs)) (omega arith) (mod_shift p k size))

  pub encode_start :
      (p : ℕ) (data' : List ℕ)
      → 1 < size
      → 0 < length data'
      → room p ≢ 0
      → encode zero p data' ≡ header p (length data') ∷ encode (room p) ((p + 1) % size) data'
  unfolding encode
  encode_start p [] h k a = absurd (omega arith)
  encode_start p (x ∷ xs) h k a =
      let e : (room p == 0) ≡ false = ground arith in
      let l : room p ≡ suc (room p - 1) = omega arith in
      rw e (
        ap (◌∷◌ (header p (suc (length xs)))) (
          ap (λ q. x ∷ encode (room p - 1) q xs) (sym (mod_shift p 1 size))
          ∙ sym (ap (λ n. encode n ((p + 1) % size) (x ∷ xs)) l)))

  pub encode_filler :
      (p : ℕ) (data' : List ℕ)
      → 1 < size
      → 0 < length data'
      → room p ≡ 0
      → encode zero p data' ≡ 0 ∷ encode zero 0 data'
  unfolding encode
  encode_filler p [] h k a = absurd (omega arith)
  encode_filler p (x ∷ xs) h k a =
      let e : (room p == 0) ≡ true = ground arith in
      let f : (room 0 == 0) ≡ false = ground arith in rw (e, f) refl

  pub header_filler : (p n : ℕ) → 0 < n → room p ≡ 0 → header p n ≡ 0
  header_filler p n h a = ground arith
