-- ===== src/Scif/Limits.antt =====
-- The limits of the driver: a write that fills the transmit ring, and the end of the flush loop.
use fx_ip.Base.{
  ℕ, zero, suc, ◌+◌, ◌<◌, ◌≡◌, refl, sym, ◌∙◌, true, some, List, [], ◌==◌, length, arith,
  Bool-cases, inl, inr,
}
use fx_ip.Ring.{Ring, available, read_one, write}
use fx_ip.Ring.Inv.{read_one-IsValid, size-read_one}
use fx_ip.Ring.Refine.{available-read_one}
use fx_ip.Ring.Bulk.{write_full}
use fx_ip.Scif.{Scif, ring_buf_size, scif_write, scif_read_flush, fill_fifo, scif_interrupt}
use fx_ip.Scif.Stream.{IsReady}

fill_fifo_empty : (room : ℕ) (r : Ring) → available r ≡ 0 → (fill_fifo room r).0 ≡ []
unfolding fill_fifo
fill_fifo_empty zero r e = refl
fill_fifo_empty (suc room) r e = ground arith

-- From a ready state, a write that fits the free count of the transmit ring exactly does not wait,
-- and leaves a transmit ring that counts as empty: an interrupt sends nothing, neither of it nor
-- of what was queued before.
pub scif_write_loses :
    (s : Scif) (xs : List ℕ)
    → IsReady s
    → available s.tx_ring + length xs ≡ ring_buf_size
    → (s' : Scif) × (scif_write s xs ≡ some s')
      × (available s'.tx_ring ≡ 0)
      × ((room : ℕ) → (scif_interrupt room [] s').0 ≡ [])
unfolding scif_write scif_interrupt
scif_write_loses s xs v e =
    let empty : available (write s.tx_ring xs) ≡ 0 =
      write_full xs v.tx_valid (omega (arith, v.tx_size)) (e ∙ sym v.tx_size) in
    (
      record s { tx_ring = write s.tx_ring xs; tie = true },
      ground arith,
      empty,
      λ room. fill_fifo_empty room (write s.tx_ring xs) empty,
    )

read-IsReady : (s : Scif) → IsReady s → IsReady (record s { rx_ring = (read_one s.rx_ring).1 })
read-IsReady s v = record {
  rx_valid = read_one-IsValid v.rx_valid;
  tx_valid = v.tx_valid;
  rx_size = size-read_one s.rx_ring ∙ v.rx_size;
  tx_size = v.tx_size;
}

-- From a ready state, `scif_read_flush` ends, within one round more than there are bytes, with an
-- empty receive ring, the transmit ring as it was, and a ready state.
pub scif_read_flush_lem :
    (fuel : ℕ) (s : Scif)
    → IsReady s
    → available s.rx_ring < fuel
    → (s' : Scif) × (scif_read_flush fuel s ≡ some s')
      × (available s'.rx_ring ≡ 0)
      × (s'.tx_ring ≡ s.tx_ring)
      × IsReady s'
unfolding scif_read_flush
scif_read_flush_lem zero s v h = absurd (omega arith)
scif_read_flush_lem (suc fuel) s v h = elim (Bool-cases (available s.rx_ring == 0)) [
  | inl e ↦ (s, ground arith, ground arith, refl, v)
  | inr e ↦
      let ih =
        scif_read_flush_lem fuel (record s { rx_ring = (read_one s.rx_ring).1 }) (read-IsReady s v)
          (ground (arith, available-read_one v.rx_valid)) in
      (ih.0, ground (arith, ih.1), ih.2, ih.3, ih.4)
]
