-- ===== src/Uip/Seq.antt =====
-- 32-bit sequence numbers as four bytes, most significant first: `uip_add32`.
use fx_ip.Base.{ℕ, ◌+◌, ◌*◌, ◌/◌, ◌%◌, ◌^◌, ◌<◌, ◌≡◌, ltb, ◌==◌, if◌then◌else◌, arith}

-- `u8_t[4]`
pub record Seq : Type 0 where
  pub b0 : ℕ
  pub b1 : ℕ
  pub b2 : ℕ
  pub b3 : ℕ

pub record IsSeq (s : Seq) : Type 0 where
  pub in0 : s.b0 < 256
  pub in1 : s.b1 < 256
  pub in2 : s.b2 < 256
  pub in3 : s.b3 < 256

abbrev pub value : Seq → ℕ
value s = s.b0 * 2 ^ 24 + s.b1 * 2 ^ 16 + s.b2 * 2 ^ 8 + s.b3

-- `++` on a byte
abbrev pub inc8 : ℕ → ℕ
inc8 x = (x + 1) % 256

-- `++acc[1]; if(acc[1] == 0) ++acc[0];`
abbrev carry1 : Seq → Seq
carry1 s = record s { b1 = inc8 s.b1; b0 = if inc8 s.b1 == 0 then inc8 s.b0 else s.b0 }

-- `++acc[2]; if(acc[2] == 0) { ++acc[1]; … }`
abbrev carry2 : Seq → Seq
carry2 s = let s' = record s { b2 = inc8 s.b2 } in if inc8 s.b2 == 0 then carry1 s' else s'

-- `uip_add32`: the result is `uip_acc32`
unfoldable pub uip_add32 : Seq → ℕ → Seq
uip_add32 op32 op16 =
    let sum = record op32 {
      b3 = (op32.b3 + op16 % 256) % 256;
      b2 = (op32.b2 + op16 / 256) % 256;
    } in
    let high = if ltb ((op32.b2 + op16 / 256) % 256) (op16 / 256) then carry1 sum else sum in
    if ltb ((op32.b3 + op16 % 256) % 256) (op16 % 256) then carry2 high else high

-- the increment of `iss` under UIP_TIMER, and that of the acknowledged number in a reset
unfoldable pub increment : Seq → Seq
increment s =
    let s3 = record s { b3 = inc8 s.b3 } in
    let s2 = record s3 { b2 = inc8 s.b2 } in
    let s1 = record s2 { b1 = inc8 s.b1 } in
    let s0 = record s1 { b0 = inc8 s.b0 } in
    if inc8 s.b3 == 0 then if inc8 s.b2 == 0 then if inc8 s.b1 == 0 then s0 else s1 else s2 else s3

-- `uip_add32` adds a 16-bit number to a number of four bytes modulo 2 ^ 32, and gives four bytes.
pub value-uip_add32 :
    (s : Seq) (n : ℕ)
    → IsSeq s
    → n < 2 ^ 16
    → (value (uip_add32 s n) ≡ (value s + n) % 2 ^ 32) × IsSeq (uip_add32 s n)
unfolding uip_add32
value-uip_add32 s n h k = ground arith

-- The byte-wise increment of `iss` and of the acknowledged number adds 1 to a number of four bytes
-- modulo 2 ^ 32, and gives four bytes.
pub value-increment :
    (s : Seq) → IsSeq s → (value (increment s) ≡ (value s + 1) % 2 ^ 32) × IsSeq (increment s)
unfolding increment
value-increment s h = ground arith
