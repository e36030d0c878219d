-- ===== src/Log.antt =====
-- The log of src/log.c: its messages go to the page of the logs, and memory is dumped in hexadecimal.
pub mod Digits
use fx_ip.Base.{
  Bool, List, Mem, Option, [], drop, false, if◌then◌else◌, leb, ltb, none, some, string_at, suc,
  zero, ℕ, ◌%◌, ◌++◌, ◌+◌, ◌-◌, ◌/◌, ◌==◌, ◌^◌, ◌∷◌,
}
use fx_ip.Objectlog.{Objectlog}
use fx_ip.Ui.{page_logs, ui_write_log}

-- `fxip_log` of a string; the drawing behind it is left out
unfoldable pub fxip_log : List ℕ → Objectlog → Option Objectlog
fxip_log msg log = ui_write_log page_logs 0 0 msg log

-- `g += g >= 10 ? 'a'-10 : '0'`
abbrev pub digit : ℕ → ℕ
digit g = if leb 10 g then g + (b'a' - 10) else g + b'0'

-- the variables of the loop of `fxip_print_hexdump`: the lines that were logged, the bytes that are
-- in `printf_buffer`, and `printed`, a `uint16_t`
pub record Dump : Type 0 where
  pub lines : List (List ℕ)
  pub printf_buffer : List ℕ
  pub printed : ℕ

-- one round of it, for the byte `x`: the buffer is cleared after each line
unfoldable pub dump_byte : Dump → ℕ → Dump
dump_byte d x =
    let printed = (d.printed + 2) % 2 ^ 16 in
    let text = d.printf_buffer ++ (digit (x / 16 % 16) ∷ digit (x % 16) ∷ []) in
    record {
      lines = if printed % 16 == 0 then d.lines ++ (text ∷ []) else d.lines;
      printf_buffer =
          if printed % 16 == 0 then [] else if printed % 4 == 0 then text ++ (b' ' ∷ []) else text;
      printed = printed;
    }

unfoldable pub dump_loop : Dump → List ℕ → Dump
dump_loop d [] = d
dump_loop d (x ∷ xs) = dump_loop (dump_byte d x) xs

-- the lines that `fxip_print_hexdump` logs for the bytes at `addr`
unfoldable pub fxip_print_hexdump : List ℕ → List (List ℕ)
fxip_print_hexdump bytes =
    let d = dump_loop (record { lines = []; printf_buffer = []; printed = 0 }) bytes in
    d.lines ++ (d.printf_buffer ∷ [])

-- the loop of `fxip_serial_hexdump`: the bytes that it hands to `scif_write`, one by one
unfoldable pub serial_loop : ℕ → List ℕ → List ℕ
serial_loop printed [] = []
serial_loop printed (x ∷ xs) =
    let printed' = (printed + 2) % 2 ^ 16 in
    (digit (x / 16 % 16)
      ∷ digit (x % 16)
      ∷ (if printed' % 32 == 0 then 10 ∷ [] else if printed' % 4 == 0 then b' ' ∷ [] else []))
    ++ serial_loop printed' xs

unfoldable pub fxip_serial_hexdump : List ℕ → List ℕ
fxip_serial_hexdump bytes = serial_loop 0 bytes
