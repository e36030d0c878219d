-- ===== src/Tests/Frames.antt =====
-- Tests of src/slipdev.c: packets with the bytes that need an escape.
use fx_ip.Base.{
  List, Mem, [], arith, if◌then◌else◌, length, peek, refl, suc, zero, ℕ, ◌++◌, ◌+◌, ◌==◌, ◌∷◌, ◌≡◌,
  ◌≤◌,
}
use fx_ip.Slip.{SlipDev, slip_end, slipdev_poll, uip_bufsize}
use fx_ip.Slip.Bounds.{IsBounded, poll-IsBounded, poll_oversize}
use fx_ip.Slip.Frame.{escape_all}
use fx_ip.Slip.RoundTrip.{IsIdle, packets, receive, receive-send_all, send_all}

abbrev idle : SlipDev
idle = record { slip_buf = λ i. 0; len = 0; tmplen = 0; lastc = 0 }

idle-IsIdle : IsIdle idle
idle-IsIdle = record { empty = refl; unescaped = λ e. absurd (omega arith) }

-- the bytes 0xC0, 0xDB, 0xDC, …
abbrev packet : Mem
packet = λ i. if i == 0 then 0xC0 else 0xDA + i

abbrev noise : List ℕ
noise = 0xDB ∷ 0xDC ∷ 0x07 ∷ []

abbrev two_packets : List (Mem × ℕ)
two_packets = (packet, 3) ∷ (packet, 5) ∷ []

receive-send_all_example : receive 4 (send_all two_packets) idle packet ≡ packets two_packets
receive-send_all_example =
    receive-send_all two_packets 4 idle packet idle-IsIdle (omega arith) (omega arith)

poll-IsBounded_example :
    IsBounded (slipdev_poll noise idle packet).dev
    × ((slipdev_poll noise idle packet).ret ≤ uip_bufsize)
    × ((i : ℕ) → (slipdev_poll noise idle packet).dev.slip_buf (uip_bufsize + 1 + i) ≡ 0)
    × ((i : ℕ)
        → (slipdev_poll noise idle packet).uip_buf (uip_bufsize + i) ≡ packet (uip_bufsize + i))
poll-IsBounded_example = poll-IsBounded noise idle packet (omega arith)

-- `n` bytes
sevens : ℕ → List ℕ
sevens zero = []
sevens (suc n) = 7 ∷ sevens n

length-sevens : (n : ℕ) → length (sevens n) ≡ n
unfolding sevens
length-sevens zero = refl
length-sevens (suc n) = omega (arith, length-sevens n)

-- a frame of 1503 bytes: 1500, then 1, then 2 and 3
abbrev long_line : List ℕ
long_line = escape_all (sevens uip_bufsize ++ 1 ∷ 2 ∷ 3 ∷ []) ++ slip_end ∷ []

poll_oversize_example :
    ((slipdev_poll long_line idle packet).dev.slip_buf uip_bufsize ≡ 1)
    × ((slipdev_poll long_line idle packet).ret ≡ 2)
    × (peek (slipdev_poll long_line idle packet).uip_buf 0 2 ≡ 2 ∷ 3 ∷ [])
    × ((slipdev_poll long_line idle packet).rest ≡ [])
poll_oversize_example =
    poll_oversize (sevens uip_bufsize) 1 (2 ∷ 3 ∷ []) [] idle packet idle-IsIdle
      (length-sevens uip_bufsize) (omega arith)
