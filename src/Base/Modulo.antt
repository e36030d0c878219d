-- ===== src/Base/Modulo.antt =====
-- `x % n` for an `x` below twice `n`, where `n` is not a numeral.
use Prim.Native.Nat.{ℕ, ◌+◌, ◌-◌, ◌%◌, ◌≤◌, ◌<◌}
use mathlib.Core.Path.{◌≡◌, ◌∙◌}
use native.Mathlib.Nat.{mod-eq_of_lt, mod-eq-sub-mod}
use native.Mathlib.Omega.{arith}

pub mod_small : (x n : ℕ) → x < n → x % n ≡ x
mod_small x n h = mod-eq_of_lt h

pub mod_once : (x n : ℕ) → n ≤ x → x < n + n → x % n ≡ x - n
mod_once x n h k = mod-eq-sub-mod {n = x} {m = n} h ∙ mod-eq_of_lt {n = x - n} {m = n} (omega arith)
