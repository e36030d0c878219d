-- ===== src/Tests/Polls.antt =====
-- A test of src/network.c: a packet of four bytes comes in.
use mathlib.Core.Option
use fx_ip.Base.{Mem, [], arith, false, peek, refl, some, ℕ, ◌++◌, ◌∷◌, ◌≡◌}
use fx_ip.Network.{Net, answer, network_poll}
use fx_ip.Network.Answer.{network_poll-packet}
use fx_ip.Slip.{SlipDev, slipdev_send}
use fx_ip.Slip.RoundTrip.{IsIdle}
use fx_ip.Tests.Tcp.{stack}
use fx_ip.Timer.{timer_expired}
use fx_ip.Uip.Process.{uip_data, uip_process}

abbrev packet : Mem
packet = λ i. 0xC0

abbrev net : Net ℕ
net = record {
  line = slipdev_send packet 4 ++ (7 ∷ []);
  dev = record { slip_buf = λ i. 0; len = 0; tmplen = 0; lastc = 0 };
  timer = record { start = 100; interval = 5 };
  stack = stack;
}

not_yet : timer_expired net.timer 104 ≡ false
unfolding timer_expired
not_yet = ground arith

network_poll-packet_example :
    (net1 : Net ℕ) × (b : Mem) × (dev : SlipDev) × (network_poll (λ s. s) 104 net ≡ some ([], net1))
    × (peek b 0 4 ≡ peek packet 0 4)
    × IsIdle dev
    × (network_poll (λ s. s) 200 net1
        ≡ Option.map
            (λ s. (answer s, record net { line = 7 ∷ []; dev = dev; stack = s }))
            (uip_process (λ s. s) uip_data (record stack { buf = b; len = 4 })))
network_poll-packet_example =
    network_poll-packet (λ s. s) net packet 4 104 200 (7 ∷ [])
      (record { empty = refl; unescaped = λ e. absurd (omega arith) }) refl (omega arith)
      (omega arith) not_yet
