-- ===== src/Objectlog/Read.antt =====
-- Reading an object: the fragments that `objectlog_get_fragment` and `objectlog_next` give.
use mathlib.Core.Option
use fx_ip.Base.{
  List, Option, [], ap, append-nil, arith, false, if◌then◌else◌, length, length-append, length-peek,
  ltb, negsuc, none, peek, pos, some, suc, sym, zero, ℕ, ℤ, ◌%◌, ◌++◌, ◌+◌, ◌<◌, ◌==◌, ◌^◌, ◌∙◌,
  ◌≡◌,
}
use fx_ip.Objectlog.{
  Objectlog, fragment_len, is_final, objectlog_get_fragment, objectlog_next, size_loop,
}
use fx_ip.Objectlog.Object.{Object, last, more}

-- What a reader collects that asks for fragments until `objectlog_next` says that there are no more.
-- `none`: an error, or the fuel ran out.
unfoldable pub read_fragments : ℕ → Objectlog → ℤ → Option (List ℕ)
read_fragments zero log iter = none
read_fragments (suc fuel) log (negsuc n) = if n == 1 then some [] else none
read_fragments (suc fuel) log (pos i) = elim (objectlog_get_fragment log (pos i)) [
  | none ↦ none
  | some r ↦
      Option.map (λ later. peek log.ring.cell r.1 r.0 ++ later)
        (read_fragments fuel log (objectlog_next log (pos i)))
]

module _ (log : Objectlog) where
  -- at a place of the storage
  pub fragment_lem :
      (p n : ℕ)
      → p < log.ring.size
      → fragment_len (log.ring.cell p) ≡ n
      → objectlog_get_fragment log (pos p) ≡ some (n, p + 1)
  unfolding objectlog_get_fragment
  fragment_lem p n h e = ground arith

  pub next_last :
      (p n : ℕ)
      → p < log.ring.size
      → n < 128
      → log.ring.cell p ≡ n + 128
      → objectlog_next log (pos p) ≡ negsuc 1
  unfolding objectlog_next
  next_last p n h k e = ground arith

  pub next_more :
      (p n : ℕ)
      → p < log.ring.size
      → n < 128
      → log.ring.cell p ≡ n
      → objectlog_next log (pos p) ≡ pos ((p + suc n) % log.ring.size)
  unfolding objectlog_next
  next_more p n h k e =
      let a : ltb log.ring.size p ≡ false = ground arith in
      let b : is_final (log.ring.cell p) ≡ false = ground arith in
      rw (a, b) (ap (λ t. pos (t % log.ring.size)) (omega arith))

  read_step :
      (fuel p n a : ℕ) (iter : ℤ)
      → objectlog_get_fragment log (pos p) ≡ some (n, a)
      → objectlog_next log (pos p) ≡ iter
      → read_fragments (suc fuel) log (pos p)
        ≡ Option.map (λ later. peek log.ring.cell a n ++ later) (read_fragments fuel log iter)
  unfolding read_fragments
  read_step fuel p n a iter e f =
      rw (e, read_fragments)
        (ap (λ z. Option.map (λ later. peek log.ring.cell a n ++ later) (read_fragments fuel log z))
          f)

  size_step :
      (fuel len p n a : ℕ) (iter : ℤ)
      → objectlog_get_fragment log (pos p) ≡ some (n, a)
      → objectlog_next log (pos p) ≡ iter
      → size_loop (suc fuel) len log (pos p) ≡ size_loop fuel ((len + n) % 2 ^ 16) log iter
  unfolding size_loop
  size_step fuel len p n a iter e f =
      rw (e, size_loop) (ap (size_loop fuel ((len + n) % 2 ^ 16) log) f)

  -- A reader that starts at an object gets its data.
  pub read_fragments-Object :
      {p k : ℕ} {d : List ℕ}
      → Object log.ring.size log.ring.cell p d k
      → (fuel : ℕ) → k < fuel
      → read_fragments fuel log (pos p) ≡ some d
  unfolding read_fragments
  read_fragments-Object (last n a b c e f g) zero h = absurd (omega arith)
  read_fragments-Object (more n k' later a b c e o f g) zero h = absurd (omega arith)
  read_fragments-Object (last n a b c e f g) (suc zero) h = absurd (omega arith)
  read_fragments-Object {p} (last n a b c e f g) (suc (suc fuel)) h =
      read_step (suc fuel) p n (p + 1) (negsuc 1) (fragment_lem p n a (omega arith))
        (next_last p n a b e)
      ∙ ap some (append-nil (peek log.ring.cell (p + 1) n) ∙ sym f)
  read_fragments-Object {p} (more n k' later a b c e o f g) (suc fuel) h =
      read_step fuel p n (p + 1) (pos ((p + suc n) % log.ring.size))
        (fragment_lem p n a (omega arith)) (next_more p n a b e)
      ∙ ap (Option.map (λ t. peek log.ring.cell (p + 1) n ++ t))
          (read_fragments-Object o fuel (omega arith))
      ∙ ap some (sym f)

  -- Its length is added up as a `uint16_t`.
  pub size_loop-Object :
      {p k : ℕ} {d : List ℕ}
      → Object log.ring.size log.ring.cell p d k
      → (fuel len : ℕ) → k < fuel
      → size_loop fuel len log (pos p) ≡ some (pos ((len + length d) % 2 ^ 16))
  unfolding size_loop
  size_loop-Object (last n a b c e f g) zero len h = absurd (omega arith)
  size_loop-Object (more n k' later a b c e o f g) zero len h = absurd (omega arith)
  size_loop-Object (last n a b c e f g) (suc zero) len h = absurd (omega arith)
  size_loop-Object {p} (last n a b c e f g) (suc (suc fuel)) len h =
      size_step (suc fuel) len p n (p + 1) (negsuc 1) (fragment_lem p n a (omega arith))
        (next_last p n a b e)
      ∙ ap (λ t. some (pos ((len + t) % 2 ^ 16)))
          (sym (ap length f ∙ length-peek log.ring.cell (p + 1) n))
  size_loop-Object {p} {d = d} (more n k' later a b c e o f g) (suc fuel) len h =
      let total : length d ≡ n + length later =
        ap length f
        ∙ omega (
          arith,
          length-append {0} (peek log.ring.cell (p + 1) n) later,
          length-peek log.ring.cell (p + 1) n,
        ) in
      size_step fuel len p n (p + 1) (pos ((p + suc n) % log.ring.size))
        (fragment_lem p n a (omega arith)) (next_more p n a b e)
      ∙ size_loop-Object o fuel ((len + n) % 2 ^ 16) (omega arith)
      ∙ ap (λ t. some (pos t)) (omega arith)
