-- ===== src/Tests/Sockets.antt =====
-- Tests of src/uip/psock.c: a socket with a buffer of four bytes.
use fx_ip.Base.{List, Mem, [], arith, blit, false, length, refl, some, true, ℕ, ◌∷◌, ◌≡◌, ◌≤◌}
use fx_ip.Psock.{Io, Psock, at_start, ended, psock_send, state_none, state_read, waiting}
use fx_ip.Psock.Line.{copied}
use fx_ip.Psock.Reading.{calls, psock_readto-line, sock}
use fx_ip.Psock.Sent.{psock_send-acked, psock_send_lem, sending, sent}

abbrev socket : Psock
socket = record {
  lc = at_start;
  sendptr = 0;
  sendlen = 0;
  read = [];
  buf = record { cell = λ i. 0; ptr = 0; left = 0 };
  bufptr = 8;
  bufsize = 4;
  state = state_none;
}

-- a packet, and an acknowledgement that allows segments of two bytes
abbrev packet : List ℕ → Io
packet bytes = record {
  acked = false;
  rexmit = false;
  newdata = true;
  appdata = bytes;
  mss = 2;
  outgoing = [];
}

abbrev ack : Io
ack = record { acked = true; rexmit = false; newdata = false; appdata = []; mss = 2; outgoing = [] }

-- The line 1 2 3 4 with the marker 10 comes in two packets, and its marker does not fit the buffer.
psock_readto-line_example :
    calls 10
      (sock at_start socket socket.buf state_none)
      (packet (1 ∷ 2 ∷ []) ∷ packet (3 ∷ 4 ∷ 10 ∷ 5 ∷ []) ∷ [])
    ≡ some (
      ended,
      record socket {
        read = 5 ∷ [];
        buf = copied (record { cell = λ i. 0; ptr = 8; left = 4 }) 4 (1 ∷ 2 ∷ 3 ∷ 4 ∷ 10 ∷ []);
        state = state_read;
      },
    )
psock_readto-line_example =
    psock_readto-line 10 socket (packet (3 ∷ 4 ∷ 10 ∷ 5 ∷ [])) (3 ∷ 4 ∷ []) (5 ∷ []) refl refl
      (omega arith) (omega arith) (omega arith) (packet (1 ∷ 2 ∷ []) ∷ []) socket.buf state_none
      (λ e. absurd (omega arith)) (refl, omega arith, tt)

-- a memory, and what stands in it when the message is sent again
abbrev memory : ℕ → Mem
memory first_byte = blit (λ i. 0) 0 (first_byte ∷ 8 ∷ 9 ∷ 10 ∷ 11 ∷ [])

abbrev again : Io
again = record ack { acked = false; rexmit = true }

psock_send_lem_example :
    (psock_send socket (memory 7) 0 2 (packet [])
      ≡ some (waiting, sending socket 0 2, record (packet []) { outgoing = 7 ∷ 8 ∷ [] }))
    × (psock_send (sending socket 0 2) (memory 70) 0 0 again
        ≡ some (waiting, sending socket 0 2, record again { outgoing = 70 ∷ 8 ∷ [] }))
psock_send_lem_example =
    psock_send_lem socket 0 2 (memory 7) (memory 70) 0 0 (packet []) again (omega arith)
      (omega arith) (omega arith) (omega arith)

-- Five bytes in segments of two: the second one is lost.
psock_send-acked_example :
    (io' : Io) × (psock_send (sending socket 0 5) (memory 7) 0 0 ack
      ≡ some (ended, sent socket 5, io'))
    × (length io'.outgoing ≤ 2)
psock_send-acked_example =
    psock_send-acked socket 0 5 (memory 7) 0 0 ack (omega arith) refl (omega arith) refl
