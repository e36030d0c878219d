-- ===== src/Slip.antt =====
-- The SLIP device of src/slipdev.c. The serial line is the list of the bytes that `scif_read` would
-- give before it returns -1, and the list of the bytes handed to `scif_write`.
pub mod Frame
pub mod RoundTrip
pub mod Bounds
use fx_ip.Base.{
  ℕ, zero, suc, ◌+◌, ◌%◌, ◌^◌, List, [], ◌∷◌, ◌++◌, ltb, ◌==◌, if◌then◌else◌, Mem, poke, blit, peek,
}

abbrev pub slip_end : ℕ
slip_end = 0xC0

abbrev pub slip_esc : ℕ
slip_esc = 0xDB

abbrev pub slip_esc_end : ℕ
slip_esc_end = 0xDC

abbrev pub slip_esc_esc : ℕ
slip_esc_esc = 0xDD

-- UIP_BUFSIZE, from uip-conf.h
abbrev pub uip_bufsize : ℕ
uip_bufsize = 1500

-- the `switch` in the loop of `slipdev_send`
unfoldable pub escape : ℕ → List ℕ
escape c =
    if c == slip_end
    then slip_esc ∷ slip_esc_end ∷ []
    else if c == slip_esc
    then slip_esc ∷ slip_esc_esc ∷ []
    else c ∷ []

-- the loop of `slipdev_send`: `n` bytes of `uip_buf` from `ptr` on
unfoldable pub send_loop : Mem → ℕ → ℕ → List ℕ
send_loop uip_buf ptr zero = []
send_loop uip_buf ptr (suc n) = escape (uip_buf ptr) ++ send_loop uip_buf (ptr + 1) n

unfoldable pub slipdev_send : Mem → ℕ → List ℕ
slipdev_send uip_buf uip_len = slip_end ∷ (send_loop uip_buf 0 uip_len ++ slip_end ∷ [])

-- the file's static variables
pub record SlipDev : Type 0 where
  pub slip_buf : Mem
  pub len : ℕ
  pub tmplen : ℕ
  pub lastc : ℕ

unfoldable pub slipdev_init : SlipDev → SlipDev
slipdev_init s = record s { len = 0; lastc = 0 }

-- the inner `switch`, for a byte behind SLIP_ESC
unfoldable pub unescape : ℕ → ℕ
unescape c = if c == slip_esc_end then slip_end else if c == slip_esc_esc then slip_esc else c

-- `slip_buf[len] = c; ++len;` and the test behind it
unfoldable pub store : SlipDev → ℕ → SlipDev
store s c = record s {
  slip_buf = poke s.slip_buf s.len c;
  len = if ltb uip_bufsize ((s.len + 1) % 2 ^ 16) then 0 else (s.len + 1) % 2 ^ 16;
}

-- one round of the loop of `slipdev_poll`, for a byte other than SLIP_END
unfoldable pub accept : SlipDev → ℕ → SlipDev
unfolding unescape store
accept s c =
    if c == slip_esc
    then record s { lastc = c }
    else store (record s { lastc = c }) (if s.lastc == slip_esc then unescape c else c)

-- what a call of `slipdev_poll` leaves: the bytes not read, the device, `uip_buf`, its result
pub record Polled : Type 0 where
  pub rest : List ℕ
  pub dev : SlipDev
  pub uip_buf : Mem
  pub ret : ℕ

unfoldable pub slipdev_poll : List ℕ → SlipDev → Mem → Polled
unfolding accept
slipdev_poll [] s uip_buf = record { rest = []; dev = s; uip_buf = uip_buf; ret = 0 }
slipdev_poll (c ∷ cs) s uip_buf =
    let later = slipdev_poll cs (accept s c) uip_buf in
    if c == slip_end
    then record {
      rest = cs;
      dev = record s { lastc = c; tmplen = s.len; len = 0 };
      uip_buf = blit uip_buf 0 (peek s.slip_buf 0 s.len);
      ret = s.len;
    }
    else later
