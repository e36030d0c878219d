-- ===== src/Network.antt =====
-- The poll of the network, src/network.c: it joins the SLIP device, the stack and the periodic timer.
-- `uip_buf` is one memory, that of the stack; the serial line is the bytes that wait to be read.
use mathlib.Core.Option
pub mod Answer
use fx_ip.Base.{List, Option, [], if◌then◌else◌, ltb, none, some, suc, zero, ℕ, ◌++◌, ◌+◌}
use fx_ip.Slip.{SlipDev, slipdev_poll, slipdev_send}
use fx_ip.Timer.{Timer, timer_expired, timer_reset}
use fx_ip.Uip.Config.{uip_conns}
use fx_ip.Uip.Process.{uip_data, uip_process, uip_timer}
use fx_ip.Uip.State.{Stack}

-- what `network_poll` works on
pub record Net (A : Type 0) : Type 0 where
  pub line : List ℕ
  pub dev : SlipDev
  pub timer : Timer
  pub stack : Stack A

-- `slipdev_send()` where `uip_len > 0`: the bytes for the line
abbrev pub answer : {A : Type 0} → Stack A → List ℕ
answer s = if ltb 0 s.len then slipdev_send s.buf s.len else []

-- the net after `uip_len = slipdev_poll()`
abbrev pub polled : {A : Type 0} → Net A → Net A
polled net =
    let p = slipdev_poll net.line net.dev net.stack.buf in
    record net {
      line = p.rest;
      dev = p.dev;
      stack = record net.stack { buf = p.uip_buf; len = p.ret };
    }

module _ {A : Type 0} (appcall : Stack A → Stack A) where
  -- `uip_periodic(i)`
  unfoldable pub uip_periodic : ℕ → Stack A → Option (Stack A)
  uip_periodic i s = uip_process appcall uip_timer (record s { conn = i })

  -- the loop over `n` connections from `i` on: the bytes for the line, and the stack
  unfoldable pub periodic_loop : ℕ → ℕ → Stack A → Option (List ℕ × Stack A)
  periodic_loop zero i s = some ([], s)
  periodic_loop (suc n) i s = elim (uip_periodic i s) [
    | none ↦ none
    | some s' ↦ Option.map (λ r. (answer s' ++ r.0, r.1)) (periodic_loop n (i + 1) s')
  ]

  -- the branch for a packet
  unfoldable pub take_packet : Net A → Option (List ℕ × Net A)
  take_packet net =
      Option.map (λ s. (answer s, record net { stack = s }))
        (uip_process appcall uip_data net.stack)

  -- the branch for the timer
  unfoldable pub tick : Net A → Option (List ℕ × Net A)
  tick net =
      Option.map (λ r. (r.0, record net { timer = timer_reset net.timer; stack = r.1 }))
        (periodic_loop uip_conns 0 net.stack)

  -- `network_poll` at a time: the bytes for the line; `none`: a call does not return
  unfoldable pub network_poll : ℕ → Net A → Option (List ℕ × Net A)
  network_poll ticks net =
      let got = polled net in
      if ltb 0 got.stack.len
      then take_packet got
      else if timer_expired got.timer ticks
      then tick got
      else some ([], got)
