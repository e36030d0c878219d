-- ===== src/Ui/Reading.antt =====
-- A cursor into an object that does not go round the end of the storage.
use mathlib.Core.Option
use fx_ip.Base.{
  List, Mem, Option, [], ap, ap₂, append-nil, arith, dec_lt, drop, inl, inr, length, length-append,
  length-peek, mod_small, negsuc, peek, pos, refl, some, suc, sym, zero, ℕ, ℤ, ◌%◌, ◌++◌, ◌+◌, ◌-◌,
  ◌<◌, ◌∙◌, ◌∷◌, ◌≡◌, ◌≤◌, ◌⊎◌, min, false, true, ◌==◌,
}
use fx_ip.Objectlog.{Objectlog, fragment_len, objectlog_next}
use fx_ip.Objectlog.Object.{Object, last, more}
use fx_ip.Objectlog.Read.{fragment_lem, next_last, next_more, read_fragments, read_fragments-Object}
use fx_ip.Objectlog.Walk.{Object-pos}
use fx_ip.Ui.{Cursor, next_fragment, skip_bytes, skip_loop}

-- the text that the loop of `ui_render_logs` goes through from a cursor on
unfoldable pub read_text : Objectlog → Cursor → Option (List ℕ)
read_text log c =
    Option.map (λ later. peek log.ring.cell c.ptr c.length ++ later)
      (read_fragments (log.ring.size + 1) log (objectlog_next log c.iter))

pub drop-peek : (m : Mem) (p n b : ℕ) → b ≤ n → drop b (peek m p n) ≡ peek m (p + b) (n - b)
drop-peek m p n zero h = ap₂ (peek m) (omega arith) (omega arith)
drop-peek m p zero (suc b) h = absurd (omega arith)
drop-peek m p (suc n) (suc b) h =
    drop-peek m (p + 1) n b (omega arith) ∙ ap₂ (peek m) (omega arith) (omega arith)

pub drop-append {ℓ} :
    {A : Type ℓ} (b : ℕ) (xs ys : List A) → b ≤ length xs → drop b (xs ++ ys) ≡ drop b xs ++ ys
drop-append zero xs ys h = refl
drop-append (suc b) [] ys h = absurd (omega arith)
drop-append (suc b) (x ∷ xs) ys h = drop-append b xs ys (omega arith)

pub drop_past {ℓ} :
    {A : Type ℓ} (b : ℕ) (xs ys : List A)
    → length xs ≤ b
    → drop b (xs ++ ys) ≡ drop (b - length xs) ys
drop_past b [] ys h = ap (λ t. drop t ys) (omega arith)
drop_past zero (x ∷ xs) ys h = absurd (omega arith)
drop_past (suc b) (x ∷ xs) ys h =
    drop_past b xs ys (omega arith) ∙ ap (λ t. drop t ys) (omega arith)

module _ (log : Objectlog) where
  -- a cursor at byte `b` of the fragment at `p`
  abbrev pub cursor : ℕ → ℕ → Cursor
  cursor p b = record { iter = pos p; ptr = p + 1 + b; length = fragment_len (log.ring.cell p) - b }

  -- one that reads these bytes
  pub record Reads (d : List ℕ) (result : Option (Option Cursor)) : Type 0 where
    pub at_byte : Cursor
    pub returns : result ≡ some (some at_byte)
    pub reads : read_text log at_byte ≡ some d

  Reads-≡ : (d e : List ℕ) (r s : Option (Option Cursor)) → r ≡ s → d ≡ e → Reads d s → Reads e r
  Reads-≡ d e r s f g h = record {
    at_byte = h.at_byte;
    returns = f ∙ h.returns;
    reads = h.reads ∙ ap some g;
  }

  fragments_end : (fuel : ℕ) → 0 < fuel → read_fragments fuel log (negsuc 1) ≡ some []
  unfolding read_fragments
  fragments_end zero h = absurd (omega arith)
  fragments_end (suc fuel) h = refl

  read_text_of :
      (p n b : ℕ) (iter : ℤ) (later d : List ℕ)
      → fragment_len (log.ring.cell p) ≡ n
      → objectlog_next log (pos p) ≡ iter
      → read_fragments (log.ring.size + 1) log iter ≡ some later
      → d ≡ peek log.ring.cell (p + 1) n ++ later
      → b ≤ n
      → read_text log (cursor p b) ≡ some (drop b d)
  unfolding read_text
  read_text_of p n b iter later d whole next rest split h =
      ap
        (λ z.
          Option.map (λ t. peek log.ring.cell (p + 1 + b) (fragment_len (log.ring.cell p) - b) ++ t)
            (read_fragments (log.ring.size + 1) log z))
        next
      ∙ ap
          (Option.map
            (λ t. peek log.ring.cell (p + 1 + b) (fragment_len (log.ring.cell p) - b) ++ t))
          rest
      ∙ ap (λ t. some (peek log.ring.cell (p + 1 + b) (t - b) ++ later)) whole
      ∙ ap some (
          sym (
            ap (drop b) split
            ∙ drop-append b (peek log.ring.cell (p + 1) n) later
                (omega (arith, length-peek log.ring.cell (p + 1) n))
            ∙ ap (λ t. t ++ later) (drop-peek log.ring.cell (p + 1) n b h)))

  read_text_lem :
      {p k : ℕ} {d : List ℕ} (b : ℕ)
      → Object log.ring.size log.ring.cell p d k
      → k ≤ log.ring.size
      → b ≤ fragment_len (log.ring.cell p)
      → read_text log (cursor p b) ≡ some (drop b d)
  read_text_lem {p} {d = d} b (last n a s c e f g) small h =
      read_text_of p n b (negsuc 1) [] d (omega arith) (next_last log p n a s e)
        (fragments_end (log.ring.size + 1) (omega arith))
        (f ∙ sym (append-nil (peek log.ring.cell (p + 1) n))) (omega arith)
  read_text_lem {p} {d = d} b (more n k' later a s c e o f g) small h =
      read_text_of p n b (pos ((p + suc n) % log.ring.size)) later d (omega arith)
        (next_more log p n a s e) (read_fragments-Object log o (log.ring.size + 1) (omega arith)) f
        (omega arith)

  -- the rounds of the loop: within a fragment, and to the next one
  skip_none : (fuel : ℕ) (c : Cursor) → skip_loop (suc fuel) log 0 c ≡ some (some c)
  unfolding skip_loop
  skip_none fuel c = refl

  pub skip_round :
      (fuel offset : ℕ) (c c' : Cursor)
      → 0 < offset
      → skip_bytes log offset c ≡ some c'
      → skip_loop (suc fuel) log offset c ≡ skip_loop fuel log (offset - min c.length offset) c'
  unfolding skip_loop
  skip_round fuel offset c c' h e =
      let f : (offset == 0) ≡ false = ground arith in rw (f, e, skip_loop) refl

  skip_within :
      (offset p b : ℕ)
      → offset + b < fragment_len (log.ring.cell p)
      → skip_bytes log offset (cursor p b) ≡ some (cursor p (b + offset))
  unfolding skip_bytes
  skip_within offset p b h =
      let n : ℕ = fragment_len (log.ring.cell p) in
      let stays : (min (n - b) offset == n - b) ≡ false = ground arith in
      rw stays (
        ap₂ (λ x y. some (record { iter = pos p; ptr = x; length = y })) (omega arith)
          (omega arith))

  next_fragment_lem :
      (q : ℕ) → 0 < q → q < log.ring.size → next_fragment log (pos q) ≡ some (cursor q 0)
  next_fragment_lem zero h k = absurd (omega arith)
  next_fragment_lem (suc q) h k =
      ap (Option.map (λ r. record { iter = pos (suc q); ptr = r.1; length = r.0 }))
        (fragment_lem log (suc q) (fragment_len (log.ring.cell (suc q))) k refl)
      ∙ ap₂ (λ x y. some (record { iter = pos (suc q); ptr = x; length = y })) (omega arith)
          (omega arith)

  skip_next :
      (offset p n b q : ℕ)
      → fragment_len (log.ring.cell p) ≡ n
      → n ≤ offset + b
      → objectlog_next log (pos p) ≡ pos q
      → 0 < q
      → q < log.ring.size
      → skip_bytes log offset (cursor p b) ≡ some (cursor q 0)
  unfolding skip_bytes
  skip_next offset p n b q whole h next positive inside =
      let m : ℕ = fragment_len (log.ring.cell p) in
      let over : (min (m - b) offset == m - b) ≡ true = ground arith in
      rw (over, next) (next_fragment_lem q positive inside)

  skip_inside :
      {p k : ℕ} {d : List ℕ}
      → Object log.ring.size log.ring.cell p d k
      → p + k ≤ log.ring.size
      → (fuel b offset : ℕ) → k < suc fuel
      → offset + b < fragment_len (log.ring.cell p)
      → 0 < offset
      → Reads (drop (b + offset) d) (skip_loop (suc fuel) log offset (cursor p b))
  skip_inside {p} {d = d} o fits zero b offset enough h w = absurd (omega (arith, Object-pos o))
  skip_inside {p} {d = d} o fits (suc fuel) b offset enough h w = record {
    at_byte = cursor p (b + offset);
    returns =
        skip_round (suc fuel) offset (cursor p b) (cursor p (b + offset)) w
          (skip_within offset p b h)
        ∙ ap (λ t. skip_loop (suc fuel) log t (cursor p (b + offset))) (omega arith)
        ∙ skip_none fuel (cursor p (b + offset));
    reads = read_text_lem (b + offset) o (omega arith) (omega arith);
  }

  -- The loop that skips bytes ends at the byte that is asked for.
  pub skip_loop_lem :
      (fuel : ℕ) {p k : ℕ} {d : List ℕ}
      → Object log.ring.size log.ring.cell p d k
      → p + k ≤ log.ring.size
      → (b offset : ℕ) → k < fuel
      → b ≤ fragment_len (log.ring.cell p)
      → (offset ≡ 0) ⊎ (b + offset < length d)
      → Reads (drop (b + offset) d) (skip_loop fuel log offset (cursor p b))
  skip_loop_lem zero o fits b offset enough h w = absurd (omega arith)
  skip_loop_lem (suc fuel) {p} {d = d} o fits b zero enough h w = record {
    at_byte = cursor p b;
    returns = skip_none fuel (cursor p b);
    reads = read_text_lem b o (omega arith) h ∙ ap (λ t. some (drop t d)) (omega arith);
  }
  skip_loop_lem (suc fuel) o fits b (suc offset) enough h (inl e) = absurd (omega arith)
  skip_loop_lem (suc fuel) {p} {k} {d} (last n a s c e f g) fits b (suc offset) enough h (inr w) =
      let all : length d ≡ n = ap length f ∙ length-peek log.ring.cell (p + 1) n in
      skip_inside (last n a s c e f g) fits fuel b (suc offset) enough (omega arith) (omega arith)
  skip_loop_lem (suc fuel) {p} {k} {d} (more n k' later a s c e o f g) fits b (suc offset) enough h
        (inr w) =
      elim (dec_lt (suc offset + b) (fragment_len (log.ring.cell p))) [
        | yes inside ↦
            skip_inside (more n k' later a s c e o f g) fits fuel b (suc offset) enough inside
              (omega arith)
        | no past ↦
            let q : ℕ = (p + suc n) % log.ring.size in
            let whole : fragment_len (log.ring.cell p) ≡ n = omega arith in
            let straight : q ≡ p + suc n =
              mod_small (p + suc n) log.ring.size (omega (arith, Object-pos o)) in
            let left : ℕ = suc offset - min (fragment_len (log.ring.cell p) - b) (suc offset) in
            let first : length (peek log.ring.cell (p + 1) n) ≡ n =
              length-peek log.ring.cell (p + 1) n in
            let all : length d ≡ n + length later =
              ap length f
              ∙ omega (arith, length-append {0} (peek log.ring.cell (p + 1) n) later, first) in
            Reads-≡ (drop (0 + left) later) (drop (b + suc offset) d)
              (skip_loop (suc fuel) log (suc offset) (cursor p b))
              (skip_loop fuel log left (cursor q 0))
              (skip_round fuel (suc offset) (cursor p b) (cursor q 0) (omega arith) (
                skip_next (suc offset) p n b q whole (omega arith) (next_more log p n a s e)
                  (omega arith) (omega arith)))
              (sym (
                ap (drop (b + suc offset)) f
                ∙ drop_past (b + suc offset) (peek log.ring.cell (p + 1) n) later (omega arith)
                ∙ ap (λ t. drop t later) (omega arith)))
              (skip_loop_lem fuel o (omega arith) 0 left (omega arith) (omega arith)
                (inr (omega arith)))
      ]
