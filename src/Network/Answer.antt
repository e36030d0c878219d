-- ===== src/Network/Answer.antt =====
-- `network_poll` of src/network.c with a packet on the line.
use mathlib.Core.Option
use fx_ip.Base.{
  List, Mem, [], ap, ap₂, arith, false, ltb, peek, refl, some, true, ℕ, ◌++◌, ◌<◌, ◌∙◌, ◌≡◌, ◌≤◌,
}
use fx_ip.Network.{Net, answer, network_poll, polled, take_packet}
use fx_ip.Slip.{SlipDev, slipdev_poll, slipdev_send, uip_bufsize}
use fx_ip.Slip.RoundTrip.{IsIdle, poll-send, poll_again}
use fx_ip.Timer.{timer_expired}
use fx_ip.Uip.Process.{uip_data, uip_process}
use fx_ip.Uip.State.{Stack}

module _ {A : Type 0} (appcall : Stack A → Stack A) where
  poll_quiet :
      (ticks : ℕ) (net : Net A)
      → (slipdev_poll net.line net.dev net.stack.buf).ret ≡ 0
      → timer_expired net.timer ticks ≡ false
      → network_poll appcall ticks net ≡ some ([], polled net)
  unfolding network_poll
  poll_quiet ticks net e t = rw (e, t, network_poll) refl

  poll_packet :
      (ticks n : ℕ) (net : Net A)
      → (slipdev_poll net.line net.dev net.stack.buf).ret ≡ n
      → 0 < n
      → network_poll appcall ticks net ≡ take_packet appcall (polled net)
  unfolding network_poll
  poll_packet ticks n net e h =
      let packet : ltb 0 (slipdev_poll net.line net.dev net.stack.buf).ret ≡ true = ground arith in
      rw (packet, network_poll) refl

  -- For a packet of 1 to UIP_BUFSIZE bytes that `slipdev_send` wrote to the line, an idle receiver
  -- and a timer that has not expired at the first of two polls: the first poll gives nothing to
  -- the line; the second gives the packet to the stack, in `uip_buf` and with its length, returns
  -- exactly if `uip_process` does, and gives to the line the frame of what the stack has to send,
  -- and nothing if `uip_len` is 0 then; what follows the frame stays on the line, and the receiver
  -- is idle again.
  pub network_poll-packet :
      (net : Net A) (m : Mem) (n first second : ℕ) (q : List ℕ)
      → IsIdle net.dev
      → net.line ≡ slipdev_send m n ++ q
      → 0 < n
      → n ≤ uip_bufsize
      → timer_expired net.timer first ≡ false
      → (net1 : Net A) × (b : Mem) × (dev : SlipDev) × (network_poll appcall first net
          ≡ some ([], net1))
        × (peek b 0 n ≡ peek m 0 n)
        × IsIdle dev
        × (network_poll appcall second net1
            ≡ Option.map
                (λ s. (answer s, record net { line = q; dev = dev; stack = s }))
                (uip_process appcall uip_data (record net.stack { buf = b; len = n })))
  unfolding take_packet
  network_poll-packet net m n first second q idle line some_bytes fits quiet =
      let r1 = slipdev_poll (slipdev_send m n ++ q) net.dev net.stack.buf in
      let r2 = poll_again r1 in
      let got = poll-send m n q net.dev net.stack.buf idle fits in
      let same : slipdev_poll net.line net.dev net.stack.buf ≡ r1 =
        ap (λ l. slipdev_poll l net.dev net.stack.buf) line in
      let net1 : Net A = record net {
        line = r1.rest;
        dev = r1.dev;
        stack = record net.stack { buf = r1.uip_buf; len = r1.ret };
      } in
      (
        net1,
        r2.uip_buf,
        r2.dev,
        poll_quiet first net (ap (λ r. r.ret) same ∙ got.0) quiet
            ∙ ap
                (λ r. some (
                  [],
                  record net {
                    line = r.rest;
                    dev = r.dev;
                    stack = record net.stack { buf = r.uip_buf; len = r.ret };
                  },
                ))
                same,
        got.2,
        got.4,
        poll_packet second n net1 got.1 some_bytes
            ∙ ap₂
                (λ l x.
                  Option.map (λ s. (answer s, record net { line = l; dev = r2.dev; stack = s }))
                    (uip_process appcall uip_data (record net.stack { buf = r2.uip_buf; len = x })))
                got.3 got.1,
      )
