-- ===== src/Irc/Print.antt =====
-- What the client formats into its message buffer.
use fx_ip.Base.{
  List, Mem, [], ap, arith, blit, length, peek, peek-blit, snprintf, suc, take_all, ℕ, ◌++◌, ◌∷◌,
  ◌≡◌, ◌≤◌,
}
use fx_ip.Irc.{Irc, clipped, message_size, print_said, said, write_page}
use fx_ip.Irc.Strings.{At-append}
use fx_ip.Ui.{page_irc_channel}

-- A text that fits is formatted as it is.
pub snprintf_lem :
    (m : Mem) (size : ℕ) (text : List ℕ)
    → length text ≤ size
    → snprintf m (suc size) text ≡ (length text, blit m 0 (text ++ (0 ∷ [])))
unfolding snprintf
snprintf_lem m size text h =
    ap (λ t. (length text, blit m 0 (t ++ (0 ∷ [])))) (take_all size text h)

pub snprintf_peek :
    (m : Mem) (text : List ℕ) → peek (blit m 0 (text ++ (0 ∷ []))) 0 (length text) ≡ text
snprintf_peek m text =
    (At-append (blit m 0 (text ++ (0 ∷ []))) 0 text (0 ∷ []) (peek-blit m 0 (text ++ (0 ∷ [])))).0

pub clipped_lem : (n : ℕ) → n ≤ message_size → clipped n ≡ n
clipped_lem n h = omega arith

-- the client after it has logged this line for the channel
abbrev pub printed : List ℕ → Irc → Irc
printed text s = record s {
  messagebuffer = blit s.messagebuffer 0 (text ++ (0 ∷ []));
  printflength = length text;
}

pub print_said_lem :
    (name text : List ℕ) (s : Irc)
    → length (said name text) ≤ 254
    → print_said name text s
      ≡ write_page page_irc_channel (said name text) (printed (said name text) s)
unfolding print_said
print_said_lem name text s h =
    let n : ℕ = length (said name text) in
    rw (snprintf_lem s.messagebuffer 254 (said name text) h, clipped_lem n (omega arith))
      (ap (λ t. write_page page_irc_channel t (printed (said name text) s))
        (snprintf_peek s.messagebuffer (said name text)))
