-- ===== src/Objectlog/Object.antt =====
-- What it means that an object stands in the storage, and that `encode` writes one.
use mathlib.Core.Path.{subst}
use fx_ip.Base.{
  List, Mem, [], ap, arith, dec_lt, drop, length, length-append, length-drop, length-take, mod_once,
  peek, refl, suc, sym, take, take-append-drop, zero, ℕ, ◌%◌, ◌++◌, ◌+◌, ◌-◌, ◌<◌, ◌∙◌, ◌∷◌, ◌≡◌,
  ◌≤◌,
}
use fx_ip.Objectlog.Format.{encode, encode_filler, filler, header, room, start}
use fx_ip.Objectlog.Length.{encode_full, encode_last, header_last, length_filler, length_full}
use fx_ip.Objectlog.Window.{window-peek_next, window_cons, window_split}
use fx_ip.Ring.Refine.{mod_shift, window}

-- At `p` an object with these data begins; it takes `k` bytes. A fragment does not go round the end.
pub data Object (size : ℕ) (m : Mem) : ℕ → List ℕ → ℕ → Type 0 where
  last :
      {p k : ℕ} {data' : List ℕ} (n : ℕ)
      → p < size
      → n < 128
      → p + suc n ≤ size
      → m p ≡ n + 128
      → data' ≡ peek m (p + 1) n
      → k ≡ suc n
      → Object size m p data' k
  more :
      {p k : ℕ} {data' : List ℕ} (n k' : ℕ) (later : List ℕ)
      → p < size
      → n < 128
      → p + suc n ≤ size
      → m p ≡ n
      → Object size m ((p + suc n) % size) later k'
      → data' ≡ peek m (p + 1) n ++ later
      → k ≡ suc n + k'
      → Object size m p data' k

module _ (size : ℕ) (m : Mem) (h : 1 < size) where
  abbrev Stands : ℕ → List ℕ → Type 0
  Stands p t = window size m p (length t) ≡ t

  Object-last :
      (p : ℕ) (data' : List ℕ)
      → p < size
      → 0 < length data'
      → length data' ≤ room size p
      → Stands p (encode size 0 p data')
      → Object size m p data' (length (encode size 0 p data'))
  Object-last p d k l a s =
      let e = encode_last size p d h k l a in
      let (hdr, bytes) = window_cons size m p (header size p (length d)) d (subst (Stands p) e s) in
      last (length d) k (omega arith) (omega arith) (hdr ∙ header_last size p (length d) a)
        (sym (sym (window-peek_next size m p (length d) (omega arith)) ∙ bytes)) (ap length e)

  abbrev next_place : ℕ → ℕ
  next_place p = (p + suc (room size p)) % size

  Object-full :
      (p : ℕ) (data' : List ℕ)
      → p < size
      → 0 < room size p
      → room size p < length data'
      → Stands p (encode size 0 p data')
      → (Stands (next_place p) (encode size 0 (next_place p) (drop (room size p) data'))
          → Object size m
              (next_place p)
              (drop (room size p) data')
              (length (encode size 0 (next_place p) (drop (room size p) data'))))
      → Object size m p data' (length (encode size 0 p data'))
  Object-full p d k l a s ih =
      let n : ℕ = room size p in
      let t : List ℕ = encode size 0 (next_place p) (drop n d) in
      let e = encode_full size p d h k l a in
      let (hdr, bytes) = window_cons size m p n (take n d ++ t) (subst (Stands p) e s) in
      let (now, then') = window_split size m ((p + 1) % size) (take n d) t (omega arith) bytes in
      let len : length (take n d) ≡ n = omega (arith, length-take n d) in
      more n (length t) (drop n d) k (omega arith) (omega arith) hdr
        (ih (
          ap (λ q. window size m q (length t))
            (sym (ap (λ z. ((p + 1) % size + z) % size) len ∙ mod_shift p n size))
          ∙ then'))
        (sym (take-append-drop n d)
          ∙ ap (λ b. b ++ drop n d)
              (sym now
                ∙ ap (window size m ((p + 1) % size)) len
                ∙ window-peek_next size m p n (omega arith)))
        (omega (arith, length_full size p d h k l a))

  Object-filler :
      (p : ℕ) (data' : List ℕ)
      → p < size
      → room size p ≡ 0
      → 0 < length data'
      → Stands p (encode size 0 p data')
      → (Stands 0 (encode size 0 0 data') → Object size m 0 data' (length (encode size 0 0 data')))
      → Object size m p data' (length (encode size 0 p data'))
  Object-filler p d k a l s ih =
      let t : List ℕ = encode size 0 0 d in
      let e = encode_filler size p d h l a in
      let (hdr, bytes) = window_cons size m p 0 t (subst (Stands p) e s) in
      let around : (p + 1) % size ≡ 0 =
        mod_once (p + 1) size (omega arith) (omega arith) ∙ omega arith in
      more 0 (length t) d k (omega arith) (omega arith) hdr
        (subst (λ q. Object size m q d (length t)) (sym around)
          (ih (subst (λ q. window size m q (length t) ≡ t) around bytes)))
        refl (ap length e ∙ omega arith)

  encode_pos : (p : ℕ) (data' : List ℕ) → 0 < length data' → 0 < length (encode size 0 p data')
  unfolding encode
  encode_pos p [] l = absurd (omega arith)
  encode_pos p (x ∷ xs) l = omega (
    arith,
    length-append (filler size p) (
        header size (start size p) (suc (length xs))
        ∷ x
        ∷ encode size (room size (start size p) - 1) ((start size p + 2) % size) xs),
  )

  pub encode-Object :
      (fuel p : ℕ) (data' : List ℕ)
      → length (encode size 0 p data') ≤ fuel
      → p < size
      → 0 < length data'
      → window size m p (length (encode size 0 p data')) ≡ encode size 0 p data'
      → Object size m p data' (length (encode size 0 p data'))
  encode-Object zero p d f k l s = absurd (omega (arith, encode_pos p d l))
  encode-Object (suc fuel) p d f k l s = elim (dec_lt (room size p) (length d)) [
    | no one ↦ Object-last p d k l (omega arith) s
    | yes longer ↦ elim (dec_lt 0 (room size p)) [
      | yes some_room ↦ Object-full p d k some_room longer s (
          encode-Object fuel (next_place p) (drop (room size p) d)
            (omega (arith, length_full size p d h k some_room longer)) (omega arith)
            (omega (arith, length-drop (room size p) d)))
      | no full ↦ Object-filler p d k (omega arith) l s (
          encode-Object fuel 0 d (omega (arith, length_filler size p d h k l (omega arith)))
            (omega arith) l)
    ]
  ]
