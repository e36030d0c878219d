-- ===== src/Objectlog/Wrapped.antt =====
-- A scatter list whose lengths add up to less than its first entry, modulo 2 ^ 16.
use fx_ip.Base.{arith, false, length, none, refl, suc, zero, ℕ, ◌+◌, ◌<◌, ◌≡◌, ◌≤◌, leb}
use fx_ip.Objectlog.{Writer, at_end, current, fragment_rest, write_len, write_loop, write_step}

rest_le : (w : Writer) → fragment_rest w ≤ w.data_len
rest_le w = ground arith

-- Less is counted than the current entry still has.
pub record IsStuck (w : Writer) : Type 0 where
  pub more : at_end w.sc_list ≡ false
  pub short : w.scatter_entry_offset + w.data_len < length (current w.sc_list)

write_step-IsStuck : (w : Writer) → IsStuck w → IsStuck (write_step w)
unfolding write_step
write_step-IsStuck w h =
    let le : write_len w ≤ w.data_len = omega (arith, rest_le w) in
    let not_done : leb (length (current w.sc_list)) (w.scatter_entry_offset + write_len w) ≡ false =
      ground (arith, h.short) in
    record { more = rw not_done h.more; short = rw not_done (omega (arith, h.short)) }

pub write_loop-IsStuck : (fuel : ℕ) (w : Writer) → IsStuck w → write_loop fuel w ≡ none
unfolding write_loop
write_loop-IsStuck zero w h = refl
write_loop-IsStuck (suc fuel) w h =
    rw (h.more, write_loop) (write_loop-IsStuck fuel (write_step w) (write_step-IsStuck w h))
