-- ===== src/Psock/Line.antt =====
-- `psock_readto` collects a line over the packets that it comes in.
use fx_ip.Base.{
  Bool, Bool-cases, List, [], ap, ap₂, arith, blit, drop, false, if◌then◌else◌, inl, inr, leb,
  leb→le, length, length-append, length-drop, ltb, ltb→lt, min, poke, refl, suc, sym, take,
  take_all, true, zero, ℕ, ◌++◌, ◌+◌, ◌-◌, ◌<◌, ◌==◌, ◌∙◌, ◌∷◌, ◌≡◌, ◌≢◌, ◌≤◌,
}
use fx_ip.Objectlog.Scatter.{drop_all, drop_nil}
use fx_ip.Psock.{Buf, buf_bufto, buf_found, buf_full, bufto_skip, bufto_store, is_empty, put_byte}

-- no byte of the list is the marker
abbrev pub Lacks : ℕ → List ℕ → Type 0
Lacks m [] = Unit {0}
Lacks m (c ∷ later) = (c ≢ m) × Lacks m later

-- the buffer after these bytes were offered to it
pub put_bytes : Buf → List ℕ → Buf
put_bytes b [] = b
put_bytes b (c ∷ later) = if b.left == 0 then b else put_bytes (put_byte b c) later

bufto_store_full :
    (m : ℕ) (b : Buf) (bytes : List ℕ) → b.left ≡ 0 → bufto_store m b bytes ≡ (false, b, bytes)
unfolding bufto_store
bufto_store_full m b [] h = refl
bufto_store_full m b (c ∷ later) h = let e : (b.left == 0) ≡ true = ground arith in rw e refl

put_bytes_full : (b : Buf) (bytes : List ℕ) → b.left ≡ 0 → put_bytes b bytes ≡ b
unfolding put_bytes
put_bytes_full b [] h = refl
put_bytes_full b (c ∷ later) h = let e : (b.left == 0) ≡ true = ground arith in rw e refl

bufto_skip-Lacks : (m : ℕ) (line : List ℕ) → Lacks m line → bufto_skip m line ≡ (false, [])
unfolding bufto_skip
bufto_skip-Lacks m [] h = refl
bufto_skip-Lacks m (c ∷ later) h = ground (arith, h, bufto_skip-Lacks m later)

bufto_skip_marker :
    (m : ℕ) (line later : List ℕ)
    → Lacks m line
    → bufto_skip m (line ++ (m ∷ later)) ≡ (true, later)
unfolding bufto_skip
bufto_skip_marker m [] later h = ground arith
bufto_skip_marker m (c ∷ line) later h = ground (arith, h, bufto_skip_marker m line later)

Lacks-drop : (m n : ℕ) (line : List ℕ) → Lacks m line → Lacks m (drop n line)
Lacks-drop m zero line h = h
Lacks-drop m (suc n) [] h = h
Lacks-drop m (suc n) (c ∷ later) h = Lacks-drop m n later h.1

-- no marker: what fits is stored
bufto_store-Lacks :
    (m : ℕ) (b : Buf) (line : List ℕ)
    → Lacks m line
    → bufto_store m b line ≡ (false, put_bytes b line, drop b.left line)
unfolding bufto_store put_bytes
bufto_store-Lacks m b [] h = ap (λ t. (false, b, t)) (sym (drop_nil b.left))
bufto_store-Lacks m b (c ∷ later) h = elim (Bool-cases (b.left == 0)) [
  | inl e ↦
      let z : b.left ≡ 0 = ground arith in rw e (ap (λ n. (false, b, drop n (c ∷ later))) (sym z))
  | inr e ↦
      let l : b.left ≡ suc (b.left - 1) = ground arith in
      let f : (c == m) ≡ false = ground (arith, h.0) in
      rw (e, f)
        (bufto_store-Lacks m (put_byte b c) later h.1
          ∙ ap (λ n. (false, put_bytes (put_byte b c) later, drop n (c ∷ later))) (sym l))
]

-- a marker that fits
bufto_store_marker :
    (m : ℕ) (b : Buf) (line later : List ℕ)
    → Lacks m line
    → length line < b.left
    → bufto_store m b (line ++ (m ∷ later)) ≡ (true, put_bytes b (line ++ (m ∷ [])), later)
unfolding bufto_store put_bytes
bufto_store_marker m b [] later h lt =
    let e : (b.left == 0) ≡ false = ground arith in
    let f : (m == m) ≡ true = ground arith in rw (e, f) refl
bufto_store_marker m b (c ∷ line) later h lt =
    let e : (b.left == 0) ≡ false = ground arith in
    let f : (c == m) ≡ false = ground (arith, h.0) in
    rw (e, f) (bufto_store_marker m (put_byte b c) line later h.1 (omega arith))

-- a marker behind the room of the buffer
bufto_store_late :
    (m : ℕ) (b : Buf) (line later : List ℕ)
    → Lacks m line
    → b.left ≤ length line
    → bufto_store m b (line ++ (m ∷ later))
      ≡ (false, put_bytes b (line ++ (m ∷ [])), drop b.left line ++ (m ∷ later))
unfolding bufto_store put_bytes
bufto_store_late m b [] later h le =
    let e : (b.left == 0) ≡ true = ground arith in
    let z : b.left ≡ 0 = omega arith in
    rw e (ap (λ n. (false, b, drop n [] ++ (m ∷ later))) (sym z))
bufto_store_late m b (c ∷ line) later h le = elim (Bool-cases (b.left == 0)) [
  | inl e ↦
      let z : b.left ≡ 0 = ground arith in
      rw e (ap (λ n. (false, b, drop n (c ∷ line) ++ (m ∷ later))) (sym z))
  | inr e ↦
      let l : b.left ≡ suc (b.left - 1) = ground arith in
      let f : (c == m) ≡ false = ground (arith, h.0) in
      rw (e, f)
        (bufto_store_late m (put_byte b c) line later h.1 (omega arith)
          ∙ ap
              (λ n. (
                false,
                put_bytes (put_byte b c) (line ++ (m ∷ [])),
                drop n (c ∷ line) ++ (m ∷ later),
              ))
              (sym l))
]

is_empty_pos : (xs : List ℕ) → 0 < length xs → is_empty xs ≡ false
is_empty_pos [] h = absurd (omega arith)
is_empty_pos (x ∷ xs) h = refl

-- the three ways through `buf_bufto`
found_stored :
    (m : ℕ) (b b' : Buf) (bytes rest : List ℕ)
    → bufto_store m b bytes ≡ (true, b', rest)
    → buf_bufto b m bytes ≡ (buf_found, b', rest)
unfolding buf_bufto
found_stored m b b' bytes rest e = rw (e, buf_bufto) refl

all_stored :
    (m : ℕ) (b b' : Buf) (bytes rest : List ℕ)
    → bufto_store m b bytes ≡ (false, b', rest)
    → rest ≡ []
    → buf_bufto b m bytes ≡ (0, b', [])
unfolding buf_bufto
all_stored m b b' bytes rest e f = rw (e, buf_bufto) (rw f refl)

rest_skipped :
    (m : ℕ) (b b' : Buf) (bytes rest last : List ℕ) (found : Bool)
    → bufto_store m b bytes ≡ (false, b', rest)
    → 0 < length rest
    → bufto_skip m rest ≡ (found, last)
    → buf_bufto b m bytes ≡ ((if found then buf_found + buf_full else buf_full), b', last)
unfolding buf_bufto
rest_skipped m b b' bytes rest last found e f g =
    rw (e, buf_bufto) (rw (is_empty_pos rest f, g) refl)

-- `buf_bufto` of data without the marker stores what fits, consumes all, and says whether all was
-- stored.
pub buf_bufto-Lacks :
    (m : ℕ) (b : Buf) (line : List ℕ)
    → Lacks m line
    → buf_bufto b m line
      ≡ ((if leb (length line) b.left then 0 else buf_full), put_bytes b line, [])
buf_bufto-Lacks m b line h = elim (Bool-cases (leb (length line) b.left)) [
  | inl e ↦ rw e (
      all_stored m b (put_bytes b line) line (drop b.left line) (bufto_store-Lacks m b line h)
        (drop_all b.left line (leb→le _ _ e)))
  | inr e ↦ rw e (
      rest_skipped m b (put_bytes b line) line (drop b.left line) [] false
        (bufto_store-Lacks m b line h) (ground (arith, length-drop b.left line))
        (bufto_skip-Lacks m (drop b.left line) (Lacks-drop m b.left line h)))
]

-- `buf_bufto` of data with a marker consumes them up to it, stores what fits of that, and says whether
-- the marker was stored as well.
pub buf_bufto_lem :
    (m : ℕ) (b : Buf) (line later : List ℕ)
    → Lacks m line
    → buf_bufto b m (line ++ (m ∷ later)) ≡ (
      (if ltb (length line) b.left then buf_found else buf_found + buf_full),
      put_bytes b (line ++ (m ∷ [])),
      later,
    )
buf_bufto_lem m b line later h = elim (Bool-cases (ltb (length line) b.left)) [
  | inl e ↦ rw e (found_stored m b _ _ later (bufto_store_marker m b line later h (ltb→lt _ _ e)))
  | inr e ↦ rw e (
      rest_skipped m b (put_bytes b (line ++ (m ∷ []))) (line ++ (m ∷ later))
        (drop b.left line ++ (m ∷ later)) later true
        (bufto_store_late m b line later h (ground arith))
        (omega (arith, length-append (drop b.left line) (m ∷ later)))
        (bufto_skip_marker m (drop b.left line) later (Lacks-drop m b.left line h)))
]

-- the buffer with room for `n` bytes after a copy
abbrev pub copied : Buf → ℕ → List ℕ → Buf
copied b n bytes = record {
  cell = blit b.cell b.ptr (take n bytes);
  ptr = b.ptr + min n (length bytes);
  left = n - length bytes;
}

-- What is put into the buffer is copied as far as it fits.
pub put_bytes-blit : (b : Buf) (bytes : List ℕ) → put_bytes b bytes ≡ copied b b.left bytes
unfolding put_bytes
put_bytes-blit b [] =
    ap₂ (λ p l. record { cell = b.cell; ptr = p; left = l }) (omega arith) (omega arith)
    ∙ ap (λ t. record { cell = blit b.cell b.ptr t; ptr = b.ptr + min b.left 0; left = b.left - 0 })
        (sym (take_all b.left [] (omega arith)))
put_bytes-blit b (c ∷ later) = elim (Bool-cases (b.left == 0)) [
  | inl e ↦
      let z : b.left ≡ 0 = ground arith in
      rw e (
        ap₂ (λ p l. record { cell = b.cell; ptr = p; left = l }) {v = 0 - suc (length later)}
          (omega arith) (omega arith)
        ∙ ap (λ n. copied b n (c ∷ later)) (sym z))
  | inr e ↦
      let l : b.left ≡ suc (b.left - 1) = ground arith in
      rw e (
        put_bytes-blit (put_byte b c) later
        ∙ ap₂
            (λ p l'. record {
              cell = blit (poke b.cell b.ptr c) (b.ptr + 1) (take (b.left - 1) later);
              ptr = p;
              left = l';
            })
            {y = b.ptr + min (suc (b.left - 1)) (suc (length later))}
            {v = suc (b.left - 1) - suc (length later)} (omega arith) (omega arith)
        ∙ ap (λ n. copied b n (c ∷ later)) (sym l))
]

pub put_bytes-append :
    (b : Buf) (xs ys : List ℕ) → put_bytes (put_bytes b xs) ys ≡ put_bytes b (xs ++ ys)
unfolding put_bytes
put_bytes-append b [] ys = refl
put_bytes-append b (x ∷ xs) ys = elim (Bool-cases (b.left == 0)) [
  | inl e ↦ rw e (put_bytes_full b ys (ground arith))
  | inr e ↦ rw e (put_bytes-append (put_byte b x) xs ys)
]
