-- ===== src/Irc/Answer.antt =====
-- `irc_appcall` of src/uip/irc.c with a PING in the packet.
use fx_ip.Base.{
  List, Mem, [], ap, ap₂, arith, blit, false, length, length-append, min, peek, peek-blit, refl,
  some, suc, take_all, true, zero, ℕ, ◌++◌, ◌+◌, ◌-◌, ◌<◌, ◌==◌, ◌^◌, ◌∙◌, ◌∷◌, ◌≡◌, ◌≢◌, ◌≤◌,
}
use fx_ip.Irc.{Irc, irc_command_ping, irc_parse_line, pong}
use fx_ip.Irc.Client.{
  Client, at_lines, at_message, irc_appcall, irc_send_thread, irc_thread, parse_input, read_line,
  send_step, thread_loop, thread_step,
}
use fx_ip.Irc.Ping.{irc_parse_line-ping, ping_line, rest_of, to_send}
use fx_ip.Irc.Print.{snprintf_peek}
use fx_ip.Irc.Split.{return, newline}
use fx_ip.Irc.Strings.{At, Lacks-append}
use fx_ip.Psock.{
  Buf, Io, Psock, at_start, ended, in_readto, psock_datalen, psock_readto, state_blocked_newdata,
  state_read,
}
use fx_ip.Psock.Line.{Lacks, put_bytes, put_bytes-blit}
use fx_ip.Psock.Reading.{psock_readto_blocks, psock_readto_ends, sock}
use fx_ip.Psock.Sent.{psock_send_lem, sending}

-- a client that waits for lines, and has nothing under way
abbrev pub waiting_client : Psock → Psock → Buf → ℕ → Irc → Client
waiting_client s out b st irc = record {
  connected = true;
  thread_at = at_lines;
  sender_at = at_message;
  psock = sock in_readto s b st;
  psock_out = record out { lc = at_start };
  irc = irc;
}

module _ (behind : ℕ) (s out : Psock) (b : Buf) (st : ℕ) (irc : Irc) (args : List ℕ) (io : Io)
    (idle : st ≢ state_read) (new : io.newdata ≡ true) (arrives : io.appdata ≡ ping_line args)
    (no_nul : Lacks 0 args) (no_newline : Lacks newline args) (short : length args ≤ 248)
    (fits : length (ping_line args) ≤ s.bufsize) (size : s.bufsize < 2 ^ 16)
    (at_buffer : b.ptr ≡ s.bufptr) (all_left : b.left ≡ s.bufsize)
    (fits_segment : length (pong (rest_of args)) ≤ io.mss) where
  line_starts : b ≡ record b { ptr = s.bufptr; left = s.bufsize }
  line_starts = ap₂ (λ x y. record b { ptr = x; left = y }) at_buffer all_left

  -- the line without its end
  abbrev body : List ℕ
  body = irc_command_ping ++ (b' ' ∷ rest_of args)

  body-Lacks : Lacks newline body
  body-Lacks = Lacks-append newline irc_command_ping (b' ' ∷ rest_of args) (omega arith) (
    (λ e. absurd (omega arith)),
    Lacks-append newline args (return ∷ []) no_newline ((λ e. absurd (omega arith)), tt),
  )

  -- the buffer with the line in it
  abbrev filled : Buf
  filled = record {
    cell = blit b.cell s.bufptr (ping_line args);
    ptr = s.bufptr + min s.bufsize (length (ping_line args));
    left = s.bufsize - length (ping_line args);
  }

  filled_lem : put_bytes b (ping_line args) ≡ filled
  filled_lem =
      ap (λ z. put_bytes z (ping_line args)) line_starts
      ∙ put_bytes-blit (record b { ptr = s.bufptr; left = s.bufsize }) (ping_line args)
      ∙ ap
          (λ t. record {
            cell = blit b.cell s.bufptr t;
            ptr = s.bufptr + min s.bufsize (length (ping_line args));
            left = s.bufsize - length (ping_line args);
          })
          (take_all s.bufsize (ping_line args) fits)

  readto :
      psock_readto (sock in_readto s b st) 10 io
      ≡ some (ended, record s { lc = at_start; read = []; buf = filled; state = state_read })
  readto =
      psock_readto_ends 10 s io body [] new arrives body-Lacks size (omega (arith, some_line)) b st
        idle (omega (arith, ap (λ z. z.left) line_starts))
      ∙ ap (λ z. some (ended, record s { lc = at_start; read = []; buf = z; state = state_read }))
          filled_lem
    where
      some_line : 0 < length (ping_line args)
      some_line = omega (arith, length-append {0} body (newline ∷ []))

  abbrev taken : Psock
  taken = record s { lc = at_start; read = []; buf = filled; state = state_read }

  datalen : psock_datalen taken ≡ length (ping_line args)
  unfolding psock_datalen
  datalen = omega (arith, fits, size)

  parsed :
      (m' : Mem) × (irc_parse_line behind s.bufptr
          (psock_datalen taken)
          (record irc { inputbuffer = filled.cell })
        ≡ some (to_send (pong (rest_of args)) (record irc { inputbuffer = m' })))
  parsed =
      let here : At filled.cell s.bufptr (ping_line args) =
        peek-blit b.cell s.bufptr (ping_line args) in
      let (m', e) =
        irc_parse_line-ping behind (record irc { inputbuffer = filled.cell }) s.bufptr args no_nul
          here short in
      (
        m',
        ap (λ n. irc_parse_line behind s.bufptr n (record irc { inputbuffer = filled.cell }))
              datalen
            ∙ e,
      )

  -- the client when it has the answer to send
  abbrev answering : Client
  answering = record {
    connected = true;
    thread_at = at_lines;
    sender_at = at_message;
    psock = record taken { buf = record filled { cell = parsed.0 } };
    psock_out = record out { lc = at_start };
    irc = to_send (pong (rest_of args)) (record irc { inputbuffer = parsed.0 });
  }

  first_step : thread_step behind (waiting_client s out b st irc) io ≡ some (false, answering, io)
  unfolding thread_step read_line parse_input
  first_step = rw (readto, parsed.1, thread_step, read_line, parse_input) refl

  -- and when it waits for the next line
  abbrev blocked : Client
  blocked = record answering {
    psock =
        sock in_readto s (record { cell = parsed.0; ptr = s.bufptr; left = s.bufsize })
          state_blocked_newdata;
  }

  second_step : thread_step behind answering io ≡ some (true, blocked, io)
  unfolding thread_step read_line
  second_step =
      rw
        (
          psock_readto_blocks 10 s (record filled { cell = parsed.0 }) io size,
          thread_step,
          read_line,
        )
        refl

  thread_lem :
      (fuel : ℕ)
      → 1 < fuel
      → thread_loop fuel behind (waiting_client s out b st irc) io ≡ some (blocked, io)
  unfolding thread_loop
  thread_lem zero h = absurd (omega arith)
  thread_lem (suc zero) h = absurd (omega arith)
  thread_lem (suc (suc fuel)) h = rw (first_step, thread_loop) (rw (second_step, thread_loop) refl)

  answer_length : length (pong (rest_of args)) ≡ length args + 6
  answer_length = omega (arith, length-append {0} args (return ∷ []))

  -- the client when the answer is under way
  abbrev under_way : Client
  under_way = record blocked { psock_out = sending out 0 (length (pong (rest_of args))) }

  sends :
      send_step blocked io ≡ some (true, under_way, record io { outgoing = pong (rest_of args) })
  unfolding send_step
  sends =
      let bytes : peek blocked.irc.messagebuffer 0 blocked.irc.messagelength ≡ pong (rest_of args) =
        snprintf_peek irc.messagebuffer (pong (rest_of args)) in
      let n : ℕ = length (pong (rest_of args)) in
      let go =
        (psock_send_lem out 0 n blocked.irc.messagebuffer blocked.irc.messagebuffer 0 0 io io
          (omega (arith, answer_length)) (omega (arith, answer_length, short)) fits_segment
          fits_segment).0 in
      rw (go, send_step) (ap (λ t. some (true, under_way, record io { outgoing = t })) bytes)

  -- A PING that comes in one packet is answered in the same call: for a connected client that
  -- waits at the start of a line, has nothing under way to send and a buffer that the line fits,
  -- and for an argument of at most 248 bytes without NUL and newline, irc_appcall returns, hands
  -- to the stack the bytes PONG with the argument and the carriage return, which fit a segment,
  -- waits for their acknowledgement, with these bytes in messagebuffer, where sendptr points, and
  -- logs nothing.
  pub irc_appcall-ping :
      (c' : Client) × (irc_appcall behind false false false (waiting_client s out b st irc) io
        ≡ some (c', record io { outgoing = pong (rest_of args) }))
      × (c'.irc.log ≡ irc.log)
      × (c'.psock_out ≡ sending out 0 (length (pong (rest_of args))))
      × (peek c'.irc.messagebuffer 0 (length (pong (rest_of args))) ≡ pong (rest_of args))
  unfolding irc_appcall irc_thread irc_send_thread
  irc_appcall-ping =
      let some_message : (blocked.irc.messagelength == 0) ≡ false = ground arith in
      (
        under_way,
        rw
            (
              thread_lem (6 + length {0} {A = ℕ} [] + length io.appdata) (omega arith),
              irc_appcall,
              irc_thread,
            )
            (rw (sends, irc_send_thread) (rw some_message refl)),
        refl,
        refl,
        snprintf_peek irc.messagebuffer (pong (rest_of args)),
      )
