-- ===== src/Keyboard/Chars.antt =====
-- The characters that keys stand for: bytes other than 0.
use fx_ip.Base.{
  Bool, arith, dec_lt, false, if◌then◌else◌, negsuc, not, pos, refl, true, ℕ, ℤ, ◌&&◌, ◌+◌, ◌<◌,
  ◌==◌, ◌≡◌,
}
use fx_ip.Keyboard.{Keys, between, digit_character, letter, ui_keycode_character}

-- a character that can be typed, or none
pub data IsChar : ℤ → Type 0 where
  typed : (n : ℕ) → 0 < n → n < 256 → IsChar (pos n)
  untyped : (n : ℕ) → IsChar (negsuc n)

IsChar-if : (b : Bool) {x y : ℤ} → (b ≡ true → IsChar x) → IsChar y → IsChar (if b then x else y)
IsChar-if true h k = h refl
IsChar-if false h k = k

-- The rows of digits are consecutive codes.
pub record Layout (k : Keys) : Type 0 where
  pub row_7 : k.key_9 ≡ k.key_7 + 2
  pub row_4 : k.key_6 ≡ k.key_4 + 2
  pub row_1 : k.key_3 ≡ k.key_1 + 2

module _ (k : Keys) (l : Layout k) where
  digit_character-IsChar : (key : ℕ) → IsChar (digit_character k key)
  unfolding digit_character
  digit_character-IsChar key =
      IsChar-if (between k.key_7 k.key_9 key) (λ e. typed _ (omega arith) (ground (arith, l.row_7)))
        (IsChar-if (between k.key_4 k.key_6 key)
          (λ e. typed _ (omega arith) (ground (arith, l.row_4)))
          (IsChar-if (between k.key_1 k.key_3 key)
            (λ e. typed _ (omega arith) (ground (arith, l.row_1)))
            (IsChar-if (key == k.key_0) (λ e. typed b'0' (omega arith) (omega arith))
              (IsChar-if (key == k.key_dot) (λ e. typed b'.' (omega arith) (omega arith))
                (IsChar-if (key == k.key_add) (λ e. typed b'+' (omega arith) (omega arith))
                  (IsChar-if (key == k.key_sub) (λ e. typed b'-' (omega arith) (omega arith))
                    (IsChar-if (key == k.key_mul) (λ e. typed b'*' (omega arith) (omega arith))
                      (IsChar-if (key == k.key_div) (λ e. typed b'/' (omega arith) (omega arith))
                        (IsChar-if (key == k.key_leftp)
                          (λ e. typed b'(' (omega arith) (omega arith))
                          (IsChar-if (key == k.key_rightp)
                            (λ e. typed b')' (omega arith) (omega arith))
                            (IsChar-if (key == k.key_comma)
                              (λ e. typed b',' (omega arith) (omega arith)) (untyped 0))))))))))))

  letter-lt : (key : ℕ) → letter k key < 256
  unfolding letter
  letter-lt key = ground arith

  pub ui_keycode_character-IsChar :
      (shift alpha : Bool) (key : ℕ) → IsChar (ui_keycode_character k shift alpha key)
  unfolding ui_keycode_character
  ui_keycode_character-IsChar shift true key = digit_character-IsChar key
  ui_keycode_character-IsChar shift false key =
      IsChar-if (not shift && between b'A' b'Z' (letter k key))
        (λ e. typed _ (omega arith) (ground (arith, letter-lt key)))
        (letter_char (dec_lt 0 (letter k key)))
    where
      letter_char :
          Dec (0 < letter k key)
          → IsChar (if letter k key == 0 then negsuc 0 else pos (letter k key))
      letter_char (yes p) =
          let e : (letter k key == 0) ≡ false = ground arith in
          rw e (typed (letter k key) p (letter-lt key))
      letter_char (no p) = let e : (letter k key == 0) ≡ true = ground arith in rw e (untyped 0)
