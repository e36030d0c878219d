-- ===== src/Tests/Ticks.antt =====
-- A test of src/uip/timer.c: the period of network.c, five ticks, over the wrap of the counter.
use fx_ip.Base.{arith, leb, ◌*◌, ◌≡◌}
use fx_ip.Timer.{later, resets, timer_expired, timer_expired-timer_reset, timer_set}

timer_expired-timer_reset_example :
    timer_expired (resets 2 (timer_set 5 4294967290)) (later 14 4294967290) ≡ leb (3 * 5) 14
timer_expired-timer_reset_example =
    timer_expired-timer_reset 4294967290 5 2 14 (omega arith) (omega arith) (omega arith)
      (omega arith)
