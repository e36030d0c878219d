-- ===== src/Scif.antt =====
-- The serial driver of src/scif.c: a ring for each direction between the program and the interrupt.
-- The registers are the environment: how many bytes the transmit FIFO takes during one interrupt
-- (at most 16, while `SCFDR_TFDC < 16`), and which bytes its receive FIFO holds.
pub mod Stream
pub mod Limits
use fx_ip.Base.{
  ℕ, zero, suc, ◌+◌, ◌-◌, Bool, true, false, not, Option, none, some, List, [], ◌∷◌, ◌++◌, ltb, leb,
  ◌==◌, if◌then◌else◌, length, Mem,
}
use fx_ip.Ring.{Ring, init, available, read_one, write_one, write}
use fx_ip.Ring.Bulk.{write_all}

abbrev pub ring_buf_size : ℕ
ring_buf_size = 2048

pub record Scif : Type 0 where
  pub rx_ring : Ring
  pub tx_ring : Ring
  -- the bit SCSCR_TIE, which enables the transmit interrupt
  pub tie : Bool

unfoldable pub scif_init : Mem → Mem → Scif
unfolding init
scif_init rx_buffer tx_buffer = record {
  rx_ring = init rx_buffer ring_buf_size;
  tx_ring = init tx_buffer ring_buf_size;
  tie = false;
}

-- The test of the busy wait at the top of `scif_write`.
abbrev pub must_wait : Scif → List ℕ → Bool
must_wait s bytes = ltb (ring_buf_size - available s.tx_ring) (length bytes)

-- `scif_write`; `none` while the call spins: it goes on only after an interrupt has made room.
unfoldable pub scif_write : Scif → List ℕ → Option Scif
scif_write s bytes =
    if must_wait s bytes
    then none
    else some (record s { tx_ring = write s.tx_ring bytes; tie = true })

-- `scif_read`; `none` is the result -1.
unfoldable pub scif_read : Scif → Option ℕ × Scif
scif_read s =
    if available s.rx_ring == 0
    then (none, s)
    else (some (read_one s.rx_ring).0, record s { rx_ring = (read_one s.rx_ring).1 })

-- `scif_read_flush`; `none` when the fuel runs out.
unfoldable pub scif_read_flush : ℕ → Scif → Option Scif
unfolding scif_read
scif_read_flush zero s = none
scif_read_flush (suc fuel) s =
    let rest = scif_read_flush fuel (scif_read s).1 in
    elim (scif_read s).0 [ none ↦ some (scif_read s).1 | some byte ↦ rest ]

-- the loop that fills the transmit FIFO, which takes `room` bytes: what it sends, and the ring
unfoldable pub fill_fifo : ℕ → Ring → List ℕ × Ring
fill_fifo zero r = ([], r)
fill_fifo (suc room) r =
    let rest = fill_fifo room (read_one r).1 in
    if available r == 0 then ([], r) else ((read_one r).0 ∷ rest.0, rest.1)

-- `scif_interrupt`: the bytes put on the wire, and the driver's new state
unfoldable pub scif_interrupt : ℕ → List ℕ → Scif → List ℕ × Scif
unfolding fill_fifo
scif_interrupt room received s =
    let sent = fill_fifo room s.tx_ring in
    (
      sent.0,
      record {
        rx_ring = write_all s.rx_ring received;
        tx_ring = sent.1;
        tie = if available sent.1 == 0 then false else s.tie;
      },
    )
