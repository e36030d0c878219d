-- ===== src/Base/Memory.antt =====
-- Byte memories: a C array is a function from the index to the byte that stands there. What the
-- program may touch of it is said by the bounds that are proved of each index.
use Prim.Native.Nat.add
use Prim.Native.Nat.{ℕ, zero, suc, ◌+◌, ◌≤◌, ◌<◌}
use mathlib.Core.Path.{◌≡◌, refl, ◌∙◌, ap, ap₂}
use mathlib.Core.Logic.{◌≢◌, ◌⊎◌, inl, inr}
use mathlib.Core.List.{List, [], ◌∷◌, ◌++◌}
use native.Mathlib.Omega.{arith}
use fx_ip.Base.Tests.{◌==◌, if◌then◌else◌}
use fx_ip.Base.Lists.{length}

abbrev pub Mem : Type 0
Mem = ℕ → ℕ

-- `m[i] = v`
abbrev pub poke : Mem → ℕ → ℕ → Mem
poke m i v j = if j == i then v else m j

-- `memcpy(&m[i], xs, n)`, for the `n` bytes of `xs`
abbrev pub blit : Mem → ℕ → List ℕ → Mem
blit m i [] = m
blit m i (x ∷ xs) = blit (poke m i x) (i + 1) xs

-- the `n` bytes from index `i` on
abbrev pub peek : Mem → ℕ → ℕ → List ℕ
peek m i zero = []
peek m i (suc n) = m i ∷ peek m (i + 1) n

-- Every cell is a byte.
abbrev pub IsBytes : Mem → Type 0
IsBytes m = (i : ℕ) → m i < 256

abbrev pub AllBytes : List ℕ → Type 0
AllBytes [] = Unit {0}
AllBytes (x ∷ xs) = (x < 256) × AllBytes xs

pub poke_self : (m : Mem) (i v : ℕ) → poke m i v i ≡ v
poke_self m i v = ground arith

pub poke_ne : (m : Mem) (i j v : ℕ) → j ≢ i → poke m i v j ≡ m j
poke_ne m i j v h = ground arith

pub poke-IsBytes : (m : Mem) (i v : ℕ) → IsBytes m → v < 256 → IsBytes (poke m i v)
poke-IsBytes m i v h k j = ground (arith, h j)

pub length-peek : (m : Mem) (i n : ℕ) → length (peek m i n) ≡ n
length-peek m i zero = refl
length-peek m i (suc n) = ap suc (length-peek m (i + 1) n)

-- A copy leaves the cells outside its range alone.
pub blit_outside :
    (m : Mem) (i : ℕ) (xs : List ℕ) (j : ℕ) → (j < i) ⊎ (i + length xs ≤ j) → blit m i xs j ≡ m j
blit_outside m i [] j h = refl
blit_outside m i (x ∷ xs) j (inl h) =
    blit_outside (poke m i x) (i + 1) xs j (inl (omega arith)) ∙ poke_ne m i j x (omega arith)
blit_outside m i (x ∷ xs) j (inr h) =
    blit_outside (poke m i x) (i + 1) xs j (inr (omega arith)) ∙ poke_ne m i j x (omega arith)

-- Memories that agree on a range give the same bytes there.
pub peek_agree :
    (m m' : Mem) (i n : ℕ) → ((j : ℕ) → i ≤ j → j < i + n → m j ≡ m' j) → peek m i n ≡ peek m' i n
peek_agree m m' i zero h = refl
peek_agree m m' i (suc n) h =
    ap₂ ◌∷◌ (h i (omega arith) (omega arith))
      (peek_agree m m' (i + 1) n (λ j lo hi. h j (omega arith) (omega arith)))

-- What was copied is read back.
pub peek-blit : (m : Mem) (i : ℕ) (xs : List ℕ) → peek (blit m i xs) i (length xs) ≡ xs
peek-blit m i [] = refl
peek-blit m i (x ∷ xs) =
    ap₂ ◌∷◌ (blit_outside (poke m i x) (i + 1) xs i (inl (omega arith)) ∙ poke_self m i x)
      (peek-blit (poke m i x) (i + 1) xs)

pub peek-append : (m : Mem) (i n k : ℕ) → peek m i (n + k) ≡ peek m i n ++ peek m (i + n) k
peek-append m i zero k = ap₂ (peek m) {x = i} (omega arith) (omega arith)
peek-append m i (suc n) k = rw add.suc (
    ap (◌∷◌ (m i))
      (peek-append m (i + 1) n k ∙ ap (λ t. peek m (i + 1) n ++ peek m t k) (omega arith)))

pub blit-IsBytes : (m : Mem) (i : ℕ) (xs : List ℕ) → IsBytes m → AllBytes xs → IsBytes (blit m i xs)
blit-IsBytes m i [] h k = h
blit-IsBytes m i (x ∷ xs) h k = blit-IsBytes (poke m i x) (i + 1) xs (poke-IsBytes m i x h k.0) k.1
