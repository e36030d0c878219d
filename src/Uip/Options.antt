-- ===== src/Uip/Options.antt =====
-- The loop of uip.c that looks for the MSS option, in a SYN (label `found_listen`) and in a SYNACK
-- (state SYN_SENT). Its index `c` is a byte and wraps.
pub mod Ends
use fx_ip.Base.{
  Mem, Option, if◌then◌else◌, ltb, none, some, suc, zero, ℕ, ◌%◌, ◌&&◌, ◌*◌, ◌+◌, ◌-◌, ◌/◌, ◌==◌,
}
use fx_ip.Uip.Config.{at_tcpoffset, uip_tcp_mss}
use fx_ip.Uip.State.{Conn}

-- the end of the options: `((BUF->tcpoffset >> 4) - 5) << 2`
abbrev pub options_end : Mem → ℕ
options_end m = (m at_tcpoffset / 16 - 5) * 4

-- the option at index `c`, with `opt` the byte that stands there
abbrev pub option_at : Mem → ℕ → ℕ
option_at m c = m (40 + c)

-- how a round of the loop ends
pub data Round : Type 0 where
  stop : Round
  found : ℕ → Round
  next : ℕ → Round

unfoldable pub option_round : Mem → ℕ → Round
option_round m c =
    if option_at m c == 0
    then stop
    else if option_at m c == 1
    then next ((c + 1) % 256)
    else if option_at m c == 2 && m (41 + c) == 4
    then found (m (42 + c) * 256 + m (43 + c))
    else if m (41 + c) == 0
    then stop
    else next ((c + m (41 + c)) % 256)

-- The loop: `none` when the fuel runs out, else the value of the MSS option if there is one.
unfoldable pub mss_loop : ℕ → Mem → ℕ → Option (Option ℕ)
unfolding option_round
mss_loop zero m c = none
mss_loop (suc fuel) m c =
    if ltb c (options_end m)
    then elim (option_round m c) [
      | stop ↦ some none
      | found v ↦ some (some v)
      | next c' ↦ mss_loop fuel m c'
    ]
    else some none

-- The fuel given: the index stays below 40 while the loop runs, so a loop that has not ended after
-- 41 rounds does not end.
abbrev pub options_fuel : ℕ
options_fuel = 41

-- `if((BUF->tcpoffset & 0xf0) > 0x50)` and the loop; the new value of `mss` and `initialmss`
unfoldable pub parse_mss : Mem → Option (Option ℕ)
unfolding mss_loop
parse_mss m = if ltb 5 (m at_tcpoffset / 16) then mss_loop options_fuel m 0 else some none

abbrev pub apply_mss : Option ℕ → Conn → Conn
apply_mss none c = c
apply_mss (some v) c =
    let n = if ltb uip_tcp_mss v then uip_tcp_mss else v in record c { initialmss = n; mss = n }
