-- ===== src/Scif/Stream.antt =====
-- What the driver does with the byte streams, over any order of calls and interrupts.
use fx_ip.Base.{
  ℕ, zero, suc, ◌+◌, ◌<◌, ◌≡◌, ◌≢◌, refl, sym, ap, ◌∙◌, Option, none, some, List, [], ◌∷◌, ◌++◌,
  ◌==◌, if◌then◌else◌, length, arith, append_assoc, append-nil, Bool-cases, inl, inr, Mem,
}
use fx_ip.Ring.{Ring, available, read_one}
use fx_ip.Ring.Inv.{
  IsValid, read_one-IsValid, write-IsValid, size-write, size-read_one, available_lem, init-IsValid,
}
use fx_ip.Ring.Refine.{contents, contents-read_one}
use fx_ip.Ring.Bulk.{write_all-pointers, contents-write, write_all-IsValid, contents-write_all}
use fx_ip.Scif.{
  Scif, ring_buf_size, scif_init, must_wait, scif_write, scif_read, fill_fifo, scif_interrupt,
}

pub record IsReady (s : Scif) : Type 0 where
  pub rx_valid : IsValid s.rx_ring
  pub tx_valid : IsValid s.tx_ring
  pub rx_size : s.rx_ring.size ≡ ring_buf_size
  pub tx_size : s.tx_ring.size ≡ ring_buf_size

pub fill_fifo_lem :
    (room : ℕ) (r : Ring)
    → IsValid r
    → (contents r ≡ (fill_fifo room r).0 ++ contents (fill_fifo room r).1)
      × IsValid (fill_fifo room r).1
      × ((fill_fifo room r).1.size ≡ r.size)
unfolding fill_fifo
fill_fifo_lem zero r v = (refl, v, refl)
fill_fifo_lem (suc room) r v = elim (Bool-cases (available r == 0)) [
  | inl e ↦ rw e (refl, v, refl)
  | inr e ↦
      let ih = fill_fifo_lem room (read_one r).1 (read_one-IsValid v) in
      rw e (
        contents-read_one v (ground arith) ∙ ap (◌∷◌ (read_one r).0) ih.0,
        ih.1,
        ih.2 ∙ size-read_one r,
      )
]

-- a call of `scif_write`, a call of `scif_read`, or an interrupt with its free places and bytes
pub data Event : Type 0 where
  put : List ℕ → Event
  get : Event
  irq : ℕ → List ℕ → Event

-- the driver, the bytes sent and the bytes that `scif_read` returned
pub record World : Type 0 where
  pub wire : List ℕ
  pub got : List ℕ
  pub scif : Scif

abbrev written : Option Scif → Scif → Scif
written none s = s
written (some s') s = s'

abbrev returned : Option ℕ → List ℕ
returned none = []
returned (some byte) = byte ∷ []

-- A `put` that must wait is left out: the program repeats it after an interrupt.
unfoldable pub step : Event → World → World
step (put xs) w = record w { scif = written (scif_write w.scif xs) w.scif }
step get w = record w { got = w.got ++ returned (scif_read w.scif).0; scif = (scif_read w.scif).1 }
step (irq room received) w = record w {
  wire = w.wire ++ (scif_interrupt room received w.scif).0;
  scif = (scif_interrupt room received w.scif).1;
}

unfoldable pub run : List Event → World → World
run [] w = w
run (e ∷ es) w = run es (step e w)

-- the bytes that the calls of `scif_write` took over
abbrev pub accepted : List Event → World → List ℕ
accepted [] w = []
accepted (put xs ∷ es) w = (if must_wait w.scif xs then [] else xs) ++ accepted es (step (put xs) w)
accepted (get ∷ es) w = accepted es (step get w)
accepted (irq room received ∷ es) w = accepted es (step (irq room received) w)

abbrev pub arrived : List Event → List ℕ
arrived [] = []
arrived (irq room received ∷ es) = received ++ arrived es
arrived (put xs ∷ es) = arrived es
arrived (get ∷ es) = arrived es

-- A write does not fill the transmit ring to its last byte, and the bytes that arrive leave a
-- place free in the receive ring.
abbrev pub Roomy : List Event → World → Type 0
Roomy [] w = Unit {0}
Roomy (put xs ∷ es) w =
    (available w.scif.tx_ring + length xs ≢ ring_buf_size) × Roomy es (step (put xs) w)
Roomy (get ∷ es) w = Roomy es (step get w)
Roomy (irq room received ∷ es) w =
    (available w.scif.rx_ring + length received < ring_buf_size)
    × Roomy es (step (irq room received) w)

-- what is on the wire or waits to be sent
abbrev pub outgoing : World → List ℕ
outgoing w = w.wire ++ contents w.scif.tx_ring

-- what the program has read or can still read
abbrev pub incoming : World → List ℕ
incoming w = w.got ++ contents w.scif.rx_ring

record Kept (w w' : World) (out inn : List ℕ) : Type 0 where
  ready : IsReady w'.scif
  sent : outgoing w' ≡ outgoing w ++ out
  received : incoming w' ≡ incoming w ++ inn

put-Kept :
    (xs : List ℕ) (w : World)
    → IsReady w.scif
    → available w.scif.tx_ring + length xs ≢ ring_buf_size
    → Kept w (step (put xs) w) (if must_wait w.scif xs then [] else xs) []
unfolding step scif_write
put-Kept xs w v h = elim (Bool-cases (must_wait w.scif xs)) [
  | inl e ↦ rw e (record { ready = v; sent = sym (append-nil _); received = sym (append-nil _) })
  | inr e ↦
      let fits : available w.scif.tx_ring + length xs < w.scif.tx_ring.size =
        ground (arith, (available_lem v.tx_valid).0) in
      rw e (record {
        ready = record {
          rx_valid = v.rx_valid;
          tx_valid = write-IsValid xs v.tx_valid;
          rx_size = v.rx_size;
          tx_size = size-write w.scif.tx_ring xs ∙ v.tx_size;
        };
        sent =
            ap (λ q. w.wire ++ q) (contents-write xs v.tx_valid fits)
            ∙ sym (append_assoc w.wire (contents w.scif.tx_ring) xs);
        received = sym (append-nil _);
      })
]

get-Kept : (w : World) → IsReady w.scif → Kept w (step get w) [] []
unfolding step scif_read
get-Kept w v = elim (Bool-cases (available w.scif.rx_ring == 0)) [
  | inl e ↦ rw e (record {
    ready = v;
    sent = sym (append-nil _);
    received = append_assoc w.got [] (contents w.scif.rx_ring) ∙ sym (append-nil _);
  })
  | inr e ↦ rw e (record {
    ready = record {
      rx_valid = read_one-IsValid v.rx_valid;
      tx_valid = v.tx_valid;
      rx_size = size-read_one w.scif.rx_ring ∙ v.rx_size;
      tx_size = v.tx_size;
    };
    sent = sym (append-nil _);
    received =
        append_assoc w.got ((read_one w.scif.rx_ring).0 ∷ []) (contents (read_one w.scif.rx_ring).1)
        ∙ ap (λ q. w.got ++ q) (sym (contents-read_one v.rx_valid (ground arith)))
        ∙ sym (append-nil _);
  })
]

irq-Kept :
    (room : ℕ) (received : List ℕ) (w : World)
    → IsReady w.scif
    → available w.scif.rx_ring + length received < ring_buf_size
    → Kept w (step (irq room received) w) [] received
unfolding step scif_interrupt
irq-Kept room xs w v h =
    let filled = fill_fifo_lem room w.scif.tx_ring v.tx_valid in
    record {
      ready = record {
        rx_valid = write_all-IsValid w.scif.rx_ring xs v.rx_valid;
        tx_valid = filled.1;
        rx_size = (write_all-pointers w.scif.rx_ring xs v.rx_valid).0 ∙ v.rx_size;
        tx_size = filled.2 ∙ v.tx_size;
      };
      sent =
          append_assoc w.wire (fill_fifo room w.scif.tx_ring).0
            (contents (fill_fifo room w.scif.tx_ring).1)
          ∙ ap (λ q. w.wire ++ q) (sym filled.0)
          ∙ sym (append-nil _);
      received =
          ap (λ q. w.got ++ q)
            (contents-write_all w.scif.rx_ring xs v.rx_valid (omega (arith, v.rx_size)))
          ∙ sym (append_assoc w.got (contents w.scif.rx_ring) xs);
    }

step-Kept :
    {w w' w'' : World} {out inn out' inn' : List ℕ}
    → Kept w w' out inn
    → Kept w' w'' out' inn'
    → Kept w w'' (out ++ out') (inn ++ inn')
step-Kept {out} {inn} {out'} {inn'} a b = record {
  ready = b.ready;
  sent = b.sent ∙ ap (λ q. q ++ out') a.sent ∙ append_assoc _ out out';
  received = b.received ∙ ap (λ q. q ++ inn') a.received ∙ append_assoc _ inn inn';
}

run-Kept :
    (es : List Event) (w : World)
    → IsReady w.scif
    → Roomy es w
    → Kept w (run es w) (accepted es w) (arrived es)
unfolding run
run-Kept [] w v h = record { ready = v; sent = sym (append-nil _); received = sym (append-nil _) }
run-Kept (put xs ∷ es) w v h =
    let now = put-Kept xs w v h.0 in step-Kept now (run-Kept es (step (put xs) w) now.ready h.1)
run-Kept (get ∷ es) w v h =
    let now = get-Kept w v in step-Kept now (run-Kept es (step get w) now.ready h)
run-Kept (irq room xs ∷ es) w v h =
    let now = irq-Kept room xs w v h.0 in
    step-Kept now (run-Kept es (step (irq room xs) w) now.ready h.1)

-- From a ready state, over any sequence of calls and interrupts in which no write fills the
-- transmit ring to its last byte and the bytes that arrive leave a place free in the receive ring,
-- the bytes sent and still queued are those sent and queued before followed by those accepted, the
-- bytes read and still readable are those of before followed by those that arrived, and the driver
-- stays ready.
pub run-streams :
    (es : List Event) (w : World)
    → IsReady w.scif
    → Roomy es w
    → (outgoing (run es w) ≡ outgoing w ++ accepted es w)
      × (incoming (run es w) ≡ incoming w ++ arrived es)
      × IsReady (run es w).scif
run-streams es w v h = let k = run-Kept es w v h in (k.sent, k.received, k.ready)

pub scif_init-IsReady : (rx tx : Mem) → IsReady (scif_init rx tx)
unfolding scif_init
scif_init-IsReady rx tx = record {
  rx_valid = init-IsValid rx ring_buf_size (omega arith) (omega arith);
  tx_valid = init-IsValid tx ring_buf_size (omega arith) (omega arith);
  rx_size = refl;
  tx_size = refl;
}
