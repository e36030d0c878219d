-- ===== src/Tests/Serial.antt =====
-- Tests of src/scif.c, from the state that `scif_init` leaves.
use fx_ip.Base.{List, [], arith, length, refl, some, suc, zero, ℕ, ◌++◌, ◌∷◌, ◌≡◌}
use fx_ip.Ring.{available}
use fx_ip.Scif.{Scif, scif_init, scif_interrupt, scif_read_flush, scif_write}
use fx_ip.Scif.Limits.{scif_read_flush_lem, scif_write_loses}
use fx_ip.Scif.Stream.{
  Event, IsReady, Roomy, World, accepted, arrived, get, incoming, irq, outgoing, put, run,
  run-streams, scif_init-IsReady, step,
}

abbrev fresh : Scif
fresh = scif_init (λ i. 0) (λ i. 0)

abbrev start : World
start = record { wire = []; got = []; scif = fresh }

-- two bytes to send, one byte received, one byte read
abbrev script : List Event
script = put (1 ∷ 2 ∷ []) ∷ irq 16 (5 ∷ []) ∷ get ∷ []

script-Roomy : Roomy script start
unfolding available scif_init step scif_write
script-Roomy = ground arith

run-streams_example :
    (outgoing (run script start) ≡ outgoing start ++ accepted script start)
    × (incoming (run script start) ≡ incoming start ++ arrived script)
    × IsReady (run script start).scif
run-streams_example = run-streams script start (scif_init-IsReady (λ i. 0) (λ i. 0)) script-Roomy

-- `n` bytes
zeros : ℕ → List ℕ
zeros zero = []
zeros (suc n) = 0 ∷ zeros n

length-zeros : (n : ℕ) → length (zeros n) ≡ n
unfolding zeros
length-zeros zero = refl
length-zeros (suc n) = omega (arith, length-zeros n)

no_bytes : available fresh.tx_ring ≡ 0
unfolding available scif_init
no_bytes = refl

scif_write_loses_example :
    (s' : Scif) × (scif_write fresh (zeros 2048) ≡ some s')
    × (available s'.tx_ring ≡ 0)
    × ((room : ℕ) → (scif_interrupt room [] s').0 ≡ [])
scif_write_loses_example =
    scif_write_loses fresh (zeros 2048) (scif_init-IsReady (λ i. 0) (λ i. 0))
      (omega (arith, no_bytes, length-zeros 2048))

no_input : available fresh.rx_ring ≡ 0
unfolding available scif_init
no_input = refl

scif_read_flush_lem_example :
    (s' : Scif) × (scif_read_flush 1 fresh ≡ some s')
    × (available s'.rx_ring ≡ 0)
    × (s'.tx_ring ≡ fresh.tx_ring)
    × IsReady s'
scif_read_flush_lem_example =
    scif_read_flush_lem 1 fresh (scif_init-IsReady (λ i. 0) (λ i. 0)) (omega (arith, no_input))
