-- ===== src/Ring.antt =====
-- The byte ring of src/ringbuffer.h. A function that updates `*ring` returns the new ring.
-- `uint16_t` arithmetic wraps at 2 ^ 16; a comparison of C is made over `int` and does not.
pub mod Inv
pub mod Bulk
pub mod Refine
pub mod Place
use fx_ip.Base.{
  ℕ, zero, suc, ◌+◌, ◌-◌, ◌%◌, ◌^◌, List, [], ◌∷◌, ltb, leb, if◌then◌else◌, length, take, drop, Mem,
  poke, blit,
}

abbrev pub u16_mod : ℕ
u16_mod = 2 ^ 16

-- `ringbuffer_t`; `cell` is the storage behind `buffer`.
pub record Ring : Type 0 where
  pub cell : Mem
  pub read_ptr : ℕ
  pub write_ptr : ℕ
  pub size : ℕ

unfoldable pub init : Mem → ℕ → Ring
init buffer size = record { cell = buffer; read_ptr = 0; write_ptr = 0; size = size }

unfoldable pub available : Ring → ℕ
available r =
    if leb r.read_ptr r.write_ptr
    then r.write_ptr - r.read_ptr
    else (r.size + u16_mod - r.read_ptr + r.write_ptr) % u16_mod

-- an index after `++`, then `%= size`
abbrev pub bump : Ring → ℕ → ℕ → ℕ
bump r p n = (p + n) % u16_mod % r.size

unfoldable pub read_one : Ring → ℕ × Ring
read_one r = (r.cell r.read_ptr, record r { read_ptr = bump r r.read_ptr 1 })

unfoldable pub write_one : Ring → ℕ → Ring
write_one r byte = record r {
  cell = poke r.cell r.write_ptr byte;
  write_ptr = bump r r.write_ptr 1;
}

-- the branch of `ringbuffer_write` in which the data reach past the end of the storage
abbrev pub write_round : Ring → List ℕ → Ring
write_round r kept =
    let first = r.size - r.write_ptr in
    let rest = drop first kept in
    record r {
      cell = blit (blit r.cell r.write_ptr (take first kept)) 0 rest;
      write_ptr = bump r 0 (length rest);
    }

-- `data` has `len` bytes. Of more than `size` only the last `size` are kept.
unfoldable pub write : Ring → List ℕ → Ring
write r bytes =
    if ltb r.size (r.write_ptr + length bytes)
    then write_round r
        (if ltb r.size (length bytes) then drop (length bytes - r.size) bytes else bytes)
    else record r {
      cell = blit r.cell r.write_ptr bytes;
      write_ptr = bump r r.write_ptr (length bytes);
    }

unfoldable pub advance_read : Ring → ℕ → Ring
advance_read r len = record r {
  read_ptr = bump r r.read_ptr (if ltb r.size len then len - r.size else len);
}
