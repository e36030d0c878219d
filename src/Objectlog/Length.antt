-- ===== src/Objectlog/Length.antt =====
-- How many bytes an object takes in the log, against the estimate `total_len`.
use fx_ip.Base.{
  List, [], ap, append-nil, ap₂, arith, dec_lt, drop, length, length-append, length-drop,
  length-take, mod_once, mod_small, suc, take, take_all, zero, ℕ, ◌%◌, ◌++◌, ◌+◌, ◌-◌, ◌/◌, ◌<◌,
  ◌^◌, ◌∙◌, ◌∷◌, ◌≡◌, ◌≤◌,
}
use fx_ip.Objectlog.{max_fragment_len, total_len}
use fx_ip.Objectlog.Format.{encode, encode_chunk, encode_filler, encode_start, header, room}
use fx_ip.Objectlog.Scatter.{drop_all}
use fx_ip.Ring.Refine.{mod_shift}

-- the number of fragments that `n` bytes take where none is cut short
abbrev pub fragments : ℕ → ℕ
fragments n = (n + (max_fragment_len - 1)) / max_fragment_len

module _ (size : ℕ) where
  pub header_full : (p n : ℕ) → room size p < n → header size p n ≡ room size p
  header_full p n h = ground arith

  pub header_last : (p n : ℕ) → n ≤ room size p → header size p n ≡ n + 128
  header_last p n h = ground arith

  -- The last fragment holds what is left.
  pub encode_last :
      (p : ℕ) (data' : List ℕ)
      → 1 < size
      → p < size
      → 0 < length data'
      → length data' ≤ room size p
      → encode size 0 p data' ≡ header size p (length data') ∷ data'
  unfolding encode
  encode_last p d h k l a =
      encode_start size p d h l (omega arith)
      ∙ ap (◌∷◌ (header size p (length d))) (
          encode_chunk size (length d) (room size p) ((p + 1) % size) d (omega arith) a
            (omega arith)
          ∙ ap₂
              (λ t u.
                t ++ encode size (room size p - length d) (((p + 1) % size + length d) % size) u)
              (take_all (length d) d (omega arith)) (drop_all (length d) d (omega arith))
          ∙ append-nil d)

  -- A full fragment is followed by another one.
  pub encode_full :
      (p : ℕ) (data' : List ℕ)
      → 1 < size
      → p < size
      → 0 < room size p
      → room size p < length data'
      → encode size 0 p data'
        ≡ room size p
          ∷ (take (room size p) data'
              ++ encode size 0 ((p + suc (room size p)) % size) (drop (room size p) data'))
  encode_full p d h k l a =
      encode_start size p d h (omega arith) (omega arith)
      ∙ ap₂ ◌∷◌ (header_full p (length d) a) (
          encode_chunk size (room size p) (room size p) ((p + 1) % size) d (omega arith)
            (omega arith) (omega arith)
          ∙ ap₂ (λ l' q. take (room size p) d ++ encode size l' q (drop (room size p) d))
              (omega arith) (mod_shift p (room size p) size))

  module _ (p : ℕ) (data' : List ℕ) (h : 1 < size) (k : p < size) where
    pub length_full :
        0 < room size p
        → room size p < length data'
        → length (encode size 0 p data')
          ≡ suc (
              room size p
              + length (encode size 0 ((p + suc (room size p)) % size) (drop (room size p) data')))
    length_full l a =
        ap length (encode_full p data' h k l a)
        ∙ omega (
          arith,
          length-append (take (room size p) data')
              (encode size 0 ((p + suc (room size p)) % size) (drop (room size p) data')),
          length-take (room size p) data',
        )

    pub length_last :
        0 < length data'
        → length data' ≤ room size p
        → length (encode size 0 p data') ≡ suc (length data')
    length_last l a = ap length (encode_last p data' h k l a)

    pub length_filler :
        0 < length data'
        → room size p ≡ 0
        → length (encode size 0 p data') ≡ suc (length (encode size 0 0 data'))
    length_filler l a = ap length (encode_filler size p data' h l a)

  -- Data that fit between `p` and the end of the storage take exactly the estimate.
  length-encode_straight :
      (fuel p : ℕ) (data' : List ℕ)
      → length data' ≤ fuel
      → 1 < size
      → p < size
      → p + length data' + fragments (length data') ≤ size
      → length (encode size 0 p data') ≡ length data' + fragments (length data')
  unfolding encode
  length-encode_straight fuel p [] f h k a = omega arith
  length-encode_straight zero p (x ∷ xs) f h k a = absurd (omega arith)
  length-encode_straight (suc fuel) p (x ∷ xs) f h k a =
      let d : List ℕ = x ∷ xs in
      elim (dec_lt (room size p) (length d)) [
        | yes more ↦
            let n = length-drop (room size p) d in
            let place = mod_small (p + suc (room size p)) size (omega arith) in
            let later =
              length-encode_straight fuel ((p + suc (room size p)) % size) (drop (room size p) d)
                (omega arith) h (omega arith) (omega arith) in
            omega (arith, length_full p d h k (omega arith) more)
        | no one ↦ omega (arith, length_last p d h k (omega arith) (omega arith))
      ]

  -- Where they do not fit there, one header more is enough.
  length-encode-le :
      (fuel p : ℕ) (data' : List ℕ)
      → length data' ≤ fuel
      → 1 < size
      → p < size
      → length data' + fragments (length data') ≤ size
      → length (encode size 0 p data') ≤ suc (length data' + fragments (length data'))
  unfolding encode
  length-encode-le fuel p [] f h k a = omega arith
  length-encode-le zero p (x ∷ xs) f h k a = absurd (omega arith)
  length-encode-le (suc fuel) p (x ∷ xs) f h k a =
      let d : List ℕ = x ∷ xs in
      let n = length-drop (room size p) d in
      elim (dec_lt (room size p) (length d)) [
        | no one ↦ omega (arith, length_last p d h k (omega arith) (omega arith))
        | yes more ↦ elim (dec_lt 0 (room size p)) [
          | no full ↦
              let later =
                length-encode_straight (length d) 0 d (omega arith) h (omega arith) (omega arith) in
              omega (arith, length_filler p d h k (omega arith) (omega arith))
          | yes some_room ↦
              let now = length_full p d h k some_room more in
              elim (dec_lt (p + suc (room size p)) size) [
                | yes inside ↦
                    let place = mod_small (p + suc (room size p)) size inside in
                    let later =
                      length-encode-le fuel ((p + suc (room size p)) % size) (drop (room size p) d)
                        (omega arith) h (omega arith) (omega arith) in
                    omega arith
                | no round ↦
                    let place = mod_once (p + suc (room size p)) size (omega arith) (omega arith) in
                    let later =
                      length-encode_straight fuel ((p + suc (room size p)) % size)
                        (drop (room size p) d) (omega arith) h (omega arith) (omega arith) in
                    omega arith
              ]
        ]
      ]

total_len_round :
    (size p n : ℕ)
    → n + fragments n < 2 ^ 16 - 1
    → size < p + (n + fragments n)
    → total_len size p n ≡ suc (n + fragments n)
total_len_round size p n small h = ground arith

total_len_straight :
    (size p n : ℕ)
    → n + fragments n < 2 ^ 16 - 1
    → p + (n + fragments n) ≤ size
    → total_len size p n ≡ n + fragments n
total_len_straight size p n small h = ground arith

-- The estimate is enough: an object whose length and headers are counted without a wrap takes at most
-- `total_len` bytes, if these are not more than the storage.
pub encode-le-total_len :
    (size p : ℕ) (data' : List ℕ)
    → 1 < size
    → p < size
    → length data' + fragments (length data') < 2 ^ 16 - 1
    → total_len size p (length data') ≤ size
    → length (encode size 0 p data') ≤ total_len size p (length data')
encode-le-total_len size p d h k small a =
    elim (dec_lt size (p + (length d + fragments (length d)))) [
      | yes round ↦
          let t = total_len_round size p (length d) small round in
          omega (arith, length-encode-le size (length d) p d (omega arith) h k (omega arith))
      | no straight ↦
          let t = total_len_straight size p (length d) small (omega arith) in
          omega (arith, length-encode_straight size (length d) p d (omega arith) h k (omega arith))
    ]
