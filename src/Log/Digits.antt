-- ===== src/Log/Digits.antt =====
-- The digits of `fxip_print_hexdump` of src/log.c.
use fx_ip.Base.{
  AllBytes, Bool-cases, List, [], ap, ap₂, append_assoc, append-nil, arith, false, if◌then◌else◌,
  inl, inr, leb, length, length-append, refl, sym, ℕ, ◌%◌, ◌*◌, ◌++◌, ◌+◌, ◌-◌, ◌/◌, ◌<◌, ◌==◌, ◌^◌,
  ◌∙◌, ◌∷◌, ◌≡◌, ◌≢◌, ◌≤◌,
}
use fx_ip.Log.{Dump, digit, dump_byte, dump_loop, fxip_print_hexdump}

-- the value of a digit, and the bytes that digits stand for, with the spaces left out
undigit : ℕ → ℕ
undigit c = if leb b'a' c then c - (b'a' - 10) else c - b'0'

strip : List ℕ → List ℕ
strip [] = []
strip (c ∷ cs) = if c == b' ' then strip cs else c ∷ strip cs

pairs : List ℕ → List ℕ
pairs [] = []
pairs (a ∷ []) = []
pairs (a ∷ b ∷ cs) = (undigit a * 16 + undigit b) ∷ pairs cs

concat : List (List ℕ) → List ℕ
concat [] = []
concat (l ∷ ls) = l ++ concat ls

-- what a reader of the log makes of the lines of a dump
pub read_dump : List (List ℕ) → List ℕ
read_dump lines = pairs (strip (concat lines))

-- no line is longer than this
pub AllShort : List (List ℕ) → Type 0
AllShort [] = Unit {0}
AllShort (l ∷ ls) = (length l ≤ 19) × AllShort ls

undigit-digit : (g : ℕ) → g < 16 → undigit (digit g) ≡ g
unfolding undigit
undigit-digit g h = ground arith

digit_visible : (g : ℕ) → (digit g == b' ') ≡ false
digit_visible g = ground arith

-- the digits of these bytes
hex : List ℕ → List ℕ
hex [] = []
hex (x ∷ xs) = digit (x / 16 % 16) ∷ digit (x % 16) ∷ hex xs

pairs-hex : (xs : List ℕ) → AllBytes xs → pairs (hex xs) ≡ xs
unfolding pairs hex
pairs-hex [] h = refl
pairs-hex (x ∷ xs) h =
    let a = undigit-digit (x / 16 % 16) (omega arith) in
    let b = undigit-digit (x % 16) (omega arith) in
    ap₂ ◌∷◌ (omega (arith, a, b, h)) (pairs-hex xs h.1)

strip-append : (xs ys : List ℕ) → strip (xs ++ ys) ≡ strip xs ++ strip ys
unfolding strip
strip-append [] ys = refl
strip-append (x ∷ xs) ys = elim (Bool-cases (x == b' ')) [
  | inl e ↦ rw e (strip-append xs ys)
  | inr e ↦ rw e (ap (◌∷◌ x) (strip-append xs ys))
]

concat-append : (xs ys : List (List ℕ)) → concat (xs ++ ys) ≡ concat xs ++ concat ys
unfolding concat
concat-append [] ys = refl
concat-append (x ∷ xs) ys =
    ap (◌++◌ x) (concat-append xs ys) ∙ sym (append_assoc x (concat xs) (concat ys))

-- all that was printed, in the order in which it was
shown : Dump → List ℕ
shown d = strip (concat d.lines ++ d.printf_buffer)

hex-append : (xs ys : List ℕ) → hex (xs ++ ys) ≡ hex xs ++ hex ys
unfolding hex
hex-append [] ys = refl
hex-append (x ∷ xs) ys = ap (λ t. digit (x / 16 % 16) ∷ digit (x % 16) ∷ t) (hex-append xs ys)

two_digits :
    (before : List ℕ) (x : ℕ)
    → strip (before ++ (digit (x / 16 % 16) ∷ digit (x % 16) ∷ [])) ≡ strip before ++ hex (x ∷ [])
unfolding hex strip
two_digits before x =
    strip-append before (digit (x / 16 % 16) ∷ digit (x % 16) ∷ [])
    ∙ ap (λ t. strip before ++ t) (rw (digit_visible (x / 16 % 16), digit_visible (x % 16)) refl)

module _ (d : Dump) (x : ℕ) where
  abbrev line : List ℕ
  line = d.printf_buffer ++ (digit (x / 16 % 16) ∷ digit (x % 16) ∷ [])

  line_shown : strip (concat d.lines ++ line) ≡ shown d ++ hex (x ∷ [])
  unfolding shown
  line_shown =
      ap strip (
        sym (
          append_assoc (concat d.lines) d.printf_buffer
            (digit (x / 16 % 16) ∷ digit (x % 16) ∷ [])))
      ∙ two_digits (concat d.lines ++ d.printf_buffer) x

  logged : strip (concat (d.lines ++ (line ∷ [])) ++ []) ≡ shown d ++ hex (x ∷ [])
  unfolding concat
  logged =
      ap strip (
        append-nil (concat (d.lines ++ (line ∷ [])))
        ∙ concat-append d.lines (line ∷ [])
        ∙ ap (λ t. concat d.lines ++ t) one)
      ∙ line_shown
    where
      one : concat (line ∷ []) ≡ line
      one = append-nil line

  spaced : strip (concat d.lines ++ (line ++ (b' ' ∷ []))) ≡ shown d ++ hex (x ∷ [])
  unfolding strip
  spaced =
      ap strip (sym (append_assoc (concat d.lines) line (b' ' ∷ [])))
      ∙ strip-append (concat d.lines ++ line) (b' ' ∷ [])
      ∙ append-nil (strip (concat d.lines ++ line))
      ∙ line_shown

  dump_byte-shown : shown (dump_byte d x) ≡ shown d ++ hex (x ∷ [])
  unfolding dump_byte shown
  dump_byte-shown = elim (Bool-cases ((d.printed + 2) % 2 ^ 16 % 16 == 0)) [
    | inl e ↦ rw e logged
    | inr e ↦ elim (Bool-cases ((d.printed + 2) % 2 ^ 16 % 4 == 0)) [
      | inl f ↦ rw (e, f) spaced
      | inr f ↦ rw (e, f) line_shown
    ]
  ]

-- how long the buffer is after so many digits
pub record IsDump (d : Dump) : Type 0 where
  even : d.printed % 2 ≡ 0
  in_line : length d.printf_buffer ≡ d.printed % 16 + d.printed % 16 / 4
  short : AllShort d.lines

AllShort-snoc :
    (ls : List (List ℕ)) (l : List ℕ) → AllShort ls → length l ≤ 19 → AllShort (ls ++ (l ∷ []))
unfolding AllShort
AllShort-snoc [] l h k = (k, tt)
AllShort-snoc (x ∷ ls) l h k = (h.0, AllShort-snoc ls l h.1 k)

dump_byte-IsDump : (d : Dump) (x : ℕ) → IsDump d → IsDump (dump_byte d x)
unfolding dump_byte
dump_byte-IsDump d x h =
    let n : ℕ = (d.printed + 2) % 2 ^ 16 in
    let digits : List ℕ = digit (x / 16 % 16) ∷ digit (x % 16) ∷ [] in
    let a = h.even in
    let b = h.in_line in
    let c = length-append {0} d.printf_buffer digits in
    let e = length-append {0} (d.printf_buffer ++ digits) (b' ' ∷ []) in
    elim (Bool-cases (n % 16 == 0)) [
      | inl full ↦
          let z : n % 16 ≡ 0 = ground arith in
          rw full (record {
            even = omega (arith, a);
            in_line = omega (arith, z);
            short =
                AllShort-snoc d.lines (d.printf_buffer ++ digits) h.short (omega (arith, a, b, c));
          })
      | inr going ↦
          let z : n % 16 ≢ 0 = ground arith in
          elim (Bool-cases (n % 4 == 0)) [
            | inl word ↦
                let w : n % 4 ≡ 0 = ground arith in
                rw (going, word)
                  (record {
                    even = omega (arith, a);
                    in_line = omega (arith, a, b, c, e, z, w);
                    short = h.short;
                  })
            | inr inside ↦
                let w : n % 4 ≢ 0 = ground arith in
                rw (going, inside)
                  (record {
                    even = omega (arith, a);
                    in_line = omega (arith, a, b, c, z, w);
                    short = h.short;
                  })
          ]
    ]

dump_loop-IsDump : (d : Dump) (xs : List ℕ) → IsDump d → IsDump (dump_loop d xs)
unfolding dump_loop
dump_loop-IsDump d [] h = h
dump_loop-IsDump d (x ∷ xs) h = dump_loop-IsDump (dump_byte d x) xs (dump_byte-IsDump d x h)

dump_loop-shown : (d : Dump) (xs : List ℕ) → shown (dump_loop d xs) ≡ shown d ++ hex xs
unfolding dump_loop
dump_loop-shown d [] = sym (unfold hex in append-nil (shown d))
dump_loop-shown d (x ∷ xs) =
    dump_loop-shown (dump_byte d x) xs
    ∙ ap (λ t. t ++ hex xs) (dump_byte-shown d x)
    ∙ append_assoc (shown d) (hex (x ∷ [])) (hex xs)
    ∙ ap (λ t. shown d ++ t) (sym (hex-append (x ∷ []) xs))

abbrev empty_dump : Dump
empty_dump = record { lines = []; printf_buffer = []; printed = 0 }

empty-IsDump : IsDump empty_dump
unfolding AllShort
empty-IsDump = record { even = refl; in_line = omega arith; short = tt }

empty-shown : shown empty_dump ≡ []
unfolding shown concat strip
empty-shown = refl

shown_lem : (d : Dump) → shown d ≡ strip (concat d.lines ++ d.printf_buffer)
unfolding shown
shown_lem d = refl

concat_one : (l : List ℕ) → concat (l ∷ []) ≡ l
unfolding concat
concat_one l = append-nil l

-- The lines that fxip_print_hexdump logs for bytes can be read back: their hexadecimal digits,
-- without the spaces, are those of the bytes in order; and no line has more than 19 characters, so
-- printf_buffer of 128 is not left.
pub fxip_print_hexdump-read :
    (bytes : List ℕ)
    → AllBytes bytes
    → (read_dump (fxip_print_hexdump bytes) ≡ bytes) × AllShort (fxip_print_hexdump bytes)
unfolding fxip_print_hexdump read_dump
fxip_print_hexdump-read bytes h =
    let d : Dump = dump_loop empty_dump bytes in
    let i = dump_loop-IsDump empty_dump bytes empty-IsDump in
    let whole : concat (d.lines ++ (d.printf_buffer ∷ [])) ≡ concat d.lines ++ d.printf_buffer =
      concat-append d.lines (d.printf_buffer ∷ [])
      ∙ ap (λ t. concat d.lines ++ t) (concat_one d.printf_buffer) in
    let all : strip (concat d.lines ++ d.printf_buffer) ≡ hex bytes =
      sym (shown_lem d) ∙ dump_loop-shown empty_dump bytes ∙ ap (λ t. t ++ hex bytes) empty-shown in
    (
      ap (λ t. pairs (strip t)) whole ∙ ap pairs all ∙ pairs-hex bytes h,
      AllShort-snoc d.lines d.printf_buffer i.short (omega (arith, i.in_line)),
    )
