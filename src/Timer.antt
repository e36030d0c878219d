-- ===== src/Timer.antt =====
-- The timers of src/uip/timer.c over the tick counter of src/clock-arch.c, a `uint32_t` that wraps.
use fx_ip.Base.{
  Bool, ap₂, arith, leb, refl, suc, zero, ℕ, ◌%◌, ◌*◌, ◌+◌, ◌-◌, ◌<◌, ◌^◌, ◌∙◌, ◌≡◌, ◌≤◌,
}

-- `clock_second`: ten ticks
abbrev pub clock_second : ℕ
clock_second = 10

-- `struct timer`
pub record Timer : Type 0 where
  pub start : ℕ
  pub interval : ℕ

-- the interrupt `clock_tick_callback`, on `ticks`
unfoldable pub clock_tick_callback : ℕ → ℕ
clock_tick_callback ticks = (ticks + 1) % 2 ^ 32

unfoldable pub timer_set : ℕ → ℕ → Timer
timer_set interval ticks = record { start = ticks; interval = interval }

unfoldable pub timer_reset : Timer → Timer
timer_reset t = record t { start = (t.start + t.interval) % 2 ^ 32 }

unfoldable pub timer_restart : Timer → ℕ → Timer
timer_restart t ticks = record t { start = ticks }

unfoldable pub timer_expired : Timer → ℕ → Bool
timer_expired t ticks = leb t.interval ((ticks + 2 ^ 32 - t.start) % 2 ^ 32)

-- the counter after `n` more interrupts
pub later : ℕ → ℕ → ℕ
later zero ticks = ticks
later (suc n) ticks = later n (clock_tick_callback ticks)

-- the timer after `m` resets
pub resets : ℕ → Timer → Timer
resets zero t = t
resets (suc m) t = resets m (timer_reset t)

later_lem : (n ticks : ℕ) → ticks < 2 ^ 32 → later n ticks ≡ (ticks + n) % 2 ^ 32
unfolding later clock_tick_callback
later_lem zero ticks h = omega arith
later_lem (suc n) ticks h = later_lem n ((ticks + 1) % 2 ^ 32) (omega arith) ∙ omega arith

suc_times : (m n : ℕ) → suc m * n ≡ n + m * n
suc_times m n = grind arith

resets_lem :
    (m : ℕ) (t : Timer)
    → t.start < 2 ^ 32
    → ((resets m t).start ≡ (t.start + m * t.interval) % 2 ^ 32)
      × ((resets m t).interval ≡ t.interval)
unfolding resets timer_reset
resets_lem zero t h = (omega arith, refl)
resets_lem (suc m) t h =
    let r = resets_lem m (record t { start = (t.start + t.interval) % 2 ^ 32 }) (omega arith) in
    (omega (arith, r.0, suc_times m t.interval), r.1)

-- A timer that is reset keeps its period over the wrap of the tick counter: set at some tick with
-- an interval below 2 ^ 32, and reset any number of times, it has expired n ticks after it was set
-- exactly when n is at least one more interval than those of the resets, for n below 2 ^ 32 and
-- not before the last of these.
pub timer_expired-timer_reset :
    (ticks interval m n : ℕ)
    → ticks < 2 ^ 32
    → interval < 2 ^ 32
    → m * interval ≤ n
    → n < 2 ^ 32
    → timer_expired (resets m (timer_set interval ticks)) (later n ticks) ≡ leb (suc m * interval) n
unfolding timer_expired timer_set
timer_expired-timer_reset ticks interval m n h k done small =
    let now = later_lem n ticks h in
    let r = resets_lem m (record { start = ticks; interval = interval }) h in
    let s = suc_times m interval in
    let since : (later n ticks
            + 2 ^ 32
            - (resets m (record { start = ticks; interval = interval })).start)
          % 2 ^ 32
        ≡ n - m * interval =
      omega (arith, r.0) in
    ap₂ leb r.1 since ∙ ground arith
