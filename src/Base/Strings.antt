-- ===== src/Base/Strings.antt =====
-- The functions of the C library on strings, over a memory of bytes. A string is the bytes before
-- the first NUL; a search that meets none stops after 2 ^ 16 bytes, which no array here has.
use Prim.Native.Nat.{ℕ, zero, suc, ◌+◌, ◌^◌}
use mathlib.Core.Bool.{Bool, true, false, ◌&&◌}
use mathlib.Core.Option.{Option, none, some}
use mathlib.Core.List.{List, [], ◌∷◌, ◌++◌}
use fx_ip.Base.Tests.{◌==◌, leb, if◌then◌else◌}
use fx_ip.Base.Lists.{length, take}
use fx_ip.Base.Memory.{Mem, blit, peek}

-- `strlen(&m[p])`, within `n` bytes
unfoldable pub strlen_within : ℕ → Mem → ℕ → ℕ
strlen_within zero m p = 0
strlen_within (suc n) m p =
    let later = suc (strlen_within n m (p + 1)) in if m p == 0 then 0 else later

abbrev pub max_string : ℕ
max_string = 2 ^ 16

unfoldable pub strlen : Mem → ℕ → ℕ
unfolding strlen_within
strlen m p = strlen_within max_string m p

-- the string at `p`
abbrev pub string_at : Mem → ℕ → List ℕ
string_at m p = peek m p (strlen m p)

-- `memchr(&m[p], c, n)`: the index, or NULL
unfoldable pub memchr : Mem → ℕ → ℕ → ℕ → Option ℕ
memchr m p c zero = none
memchr m p c (suc n) = let later = memchr m (p + 1) c n in if m p == c then some p else later

-- `tolower`
abbrev pub tolower : ℕ → ℕ
tolower c = if leb b'A' c && leb c b'Z' then c + 32 else c

-- `strncasecmp(a, b, n) == 0`, for two strings without their NUL
unfoldable pub is_same_case : List ℕ → List ℕ → ℕ → Bool
is_same_case a b zero = true
is_same_case [] [] (suc n) = true
is_same_case [] (y ∷ b) (suc n) = false
is_same_case (x ∷ a) [] (suc n) = false
is_same_case (x ∷ a) (y ∷ b) (suc n) = (tolower x == tolower y) && is_same_case a b n

-- `snprintf(m, size, …)` of a text of these bytes: its result, and the memory
unfoldable pub snprintf : Mem → ℕ → List ℕ → ℕ × Mem
snprintf m zero text = (length text, m)
snprintf m (suc size) text = (length text, blit m 0 (take size text ++ (0 ∷ [])))
