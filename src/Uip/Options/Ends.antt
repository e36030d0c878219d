-- ===== src/Uip/Options/Ends.antt =====
-- When the loop over the TCP options ends.
use mathlib.Core.Path.{subst}
use fx_ip.Base.{
  Bool-cases, Mem, Option, arith, dec_lt, inl, inr, ltb, none, refl, some, suc, zero, ℕ, ◌+◌, ◌-◌,
  ◌/◌, ◌<◌, ◌≡◌, ◌≢◌, ◌≤◌,
}
use fx_ip.Uip.Options.{
  Round, apply_mss, found, mss_loop, next, option_at, option_round, options_end, options_fuel,
  parse_mss, stop,
}
use fx_ip.Uip.Config.{at_tcpoffset, uip_tcp_mss}
use fx_ip.Uip.State.{Conn}

-- An option stands at this index: the first one at 0, the others behind a NOP, of kind 1, or behind
-- an option of a kind above 1, by its length byte. Behind the end of the options, of kind 0, there is
-- none.
pub data IsOption (m : Mem) : ℕ → Type 0 where
  first : IsOption m 0
  behind_nop : {c : ℕ} → IsOption m c → option_at m c ≡ 1 → IsOption m (c + 1)
  behind : {c : ℕ} → IsOption m c → 1 < option_at m c → IsOption m (c + m (41 + c))

-- No option that stands before index `n` has a length byte that carries the index past 255.
abbrev pub NoWrap : Mem → ℕ → Type 0
NoWrap m n = (c : ℕ) → IsOption m c → c < n → 1 < option_at m c → c + m (41 + c) < 256

-- how a round goes on: to another option, further on
option_round-next :
    (m : Mem) (n c c' : ℕ)
    → n ≤ 40
    → c < n
    → NoWrap m n
    → IsOption m c
    → option_round m c ≡ next c'
    → (c < c') × IsOption m c'
unfolding option_round
option_round-next m n c c' e k h o r = elim (dec_lt 1 (option_at m c)) [
  | yes long ↦ (
    ground (arith, h c o k long),
    subst (IsOption m) (ground (arith, h c o k long)) (behind o long),
  )
  | no short ↦ (ground arith, subst (IsOption m) (ground arith) (behind_nop o (ground arith)))
]

mss_loop-round :
    (fuel : ℕ) (m : Mem) (c : ℕ) (r : Round)
    → option_round m c ≡ r
    → ((c' : ℕ) → r ≡ next c' → mss_loop fuel m c' ≢ none)
    → mss_loop (suc fuel) m c ≢ none
unfolding mss_loop
mss_loop-round fuel m c stop e ih = ground arith
mss_loop-round fuel m c (found v) e ih = ground arith
mss_loop-round fuel m c (next c') e ih = ground (arith, ih c' refl)

mss_loop_ends :
    (fuel : ℕ) (m : Mem) (c : ℕ)
    → options_end m ≤ 40
    → NoWrap m (options_end m)
    → IsOption m c
    → options_end m - c < fuel
    → mss_loop fuel m c ≢ none
mss_loop_ends zero m c e h o k = absurd (omega arith)
mss_loop_ends (suc fuel) m c e h o k = elim (dec_lt c (options_end m)) [
  | yes inside ↦ mss_loop-round fuel m c (option_round m c) refl (λ c' q.
      let further = option_round-next m (options_end m) c c' e inside h o q in
      mss_loop_ends fuel m c' e h further.1 (omega (arith, further.0)))
  | no outside ↦ unfold mss_loop in ground arith
]

-- The search for the MSS option, with the fuel given, returns for every header, of a byte for its
-- length field, in which no option that stands before the end of the option area has a length byte
-- that carries the index past 255: the options are those that are reached from the first one over
-- NOPs and by length bytes. The header may also count more than 10 words.
pub parse_mss_ends :
    (m : Mem) → m at_tcpoffset < 256 → NoWrap m (options_end m) → parse_mss m ≢ none
unfolding parse_mss
parse_mss_ends m b h = elim (Bool-cases (ltb 5 (m at_tcpoffset / 16))) [
  | inl e ↦ rw e (mss_loop_ends options_fuel m 0 (omega arith) h first (omega arith))
  | inr e ↦ rw e (λ p. ground arith)
]

-- The value that is applied never exceeds UIP_TCP_MSS.
pub apply_mss-le :
    (v : Option ℕ) (c : Conn)
    → c.mss ≤ uip_tcp_mss
    → c.initialmss ≤ uip_tcp_mss
    → ((apply_mss v c).mss ≤ uip_tcp_mss) × ((apply_mss v c).initialmss ≤ uip_tcp_mss)
apply_mss-le none c h k = (h, k)
apply_mss-le (some v) c h k = ground arith

-- Where the options are longer than one byte, start with a NOP, and go on with a kind above 1 that
-- has length byte 255, the index wraps to the NOP: the option loop ends for no fuel.
pub mss_loop_hangs :
    (fuel : ℕ) (m : Mem)
    → 1 < options_end m
    → option_at m 0 ≡ 1
    → 1 < option_at m 1
    → m 42 ≡ 255
    → mss_loop fuel m 0 ≡ none
unfolding mss_loop
mss_loop_hangs zero m h a b e = refl
mss_loop_hangs (suc zero) m h a b e = ground arith
mss_loop_hangs (suc (suc fuel)) m h a b e = ground (arith, mss_loop_hangs fuel m)
