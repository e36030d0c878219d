-- ===== src/Uip/States.antt =====
-- The switch of `uip_process` on the state of the connection that a segment belongs to. `appcall` is
-- UIP_APPCALL: it reads and writes the state of the stack and its own. `i` is the index of the
-- connection, and `s.len` counts the bytes of data in the segment.
use mathlib.Core.Option
use fx_ip.Base.{Mem, Option, if◌then◌else◌, ltb, not, some, ℕ, ◌&&◌, ◌+◌, ◌==◌, ◌||◌}
use fx_ip.Uip.Config.{
  at_flags, at_seqno, at_urgp, at_wnd, tcp_ack, tcp_fin, tcp_syn, tcp_urg, uip_abort, uip_ackdata,
  uip_close, uip_closed, uip_closing, uip_connected, uip_established, uip_fin_wait_1,
  uip_fin_wait_2, uip_last_ack, uip_newdata, uip_stopped, uip_syn_rcvd, uip_syn_sent, uip_time_wait,
}
use fx_ip.Uip.Input.{control, reset, set_state, state_of, uip_add_rcv_nxt}
use fx_ip.Uip.Options.{apply_mss, parse_mss}
use fx_ip.Uip.Send.{appsend, drop_packet, tcp_send_ack, tcp_send_finack}
use fx_ip.Uip.Seq.{uip_add32}
use fx_ip.Uip.State.{Conn, Stack, get16, get_seq, has_bit, set_bit, sub16, update}

module _ {A : Type 0} (appcall : Stack A → Stack A) where
  -- `uip_flags = f; UIP_APPCALL();`
  abbrev pub call_with : ℕ → Stack A → Stack A
  call_with f s = appcall (record s { flags = f })

  unfoldable pub in_syn_rcvd : ℕ → Stack A → Stack A
  in_syn_rcvd i s =
      if has_bit s.flags uip_ackdata
      then (let s = update i (λ c. record c { tcpstateflags = uip_established; len = 0 }) s in
          let has_data = ltb 0 s.len in
          let f = if has_data then uip_connected + uip_newdata else uip_connected in
          let s = if has_data then uip_add_rcv_nxt i s.len s else s in
          appsend i (call_with f (record s { slen = 0 })))
      else drop_packet s

  -- the new connection after a SYNACK
  abbrev pub connect_done : Mem → Option ℕ → Conn → Conn
  connect_done m v c = record (apply_mss v c) {
    tcpstateflags = uip_established;
    rcv_nxt = uip_add32 (get_seq m at_seqno) 1;
    len = 0;
  }

  -- `none`: the search for the MSS option does not end
  unfoldable pub in_syn_sent : ℕ → Stack A → Option (Stack A)
  in_syn_sent i s =
      if has_bit s.flags uip_ackdata && control s.buf == tcp_syn + tcp_ack
      then Option.map
          (λ v. appsend i (
            call_with (uip_connected + uip_newdata)
              (record (update i (connect_done s.buf v) s) { len = 0; slen = 0 })))
          (parse_mss s.buf)
      else let s = call_with uip_abort s in some (reset (set_state s.conn uip_closed s))

  -- a FIN in ESTABLISHED
  abbrev pub closed_by_peer : ℕ → Stack A → Stack A
  closed_by_peer i s =
      if not ((s.conns i).len == 0)
      then drop_packet s
      else let f = set_bit s.flags uip_close in
        let f = if ltb 0 s.len then set_bit f uip_newdata else f in
        let s = call_with f (uip_add_rcv_nxt i (1 + s.len) s) in
        tcp_send_finack i
          (update i (λ c. record c { len = 1; tcpstateflags = uip_last_ack; nrtx = 0 }) s)

  -- urgent data are skipped: the length falls by the urgent pointer, as a `u16_t`
  abbrev pub skip_urgent : Stack A → Stack A
  skip_urgent s =
      let urgp = get16 s.buf at_urgp in
      if has_bit (s.buf at_flags) tcp_urg
      then record s { appdata = s.appdata + urgp; len = sub16 s.len urgp }
      else s

  -- the segment size for the window that the peer advertises
  abbrev pub window_mss : Mem → Conn → ℕ
  window_mss m c =
      let wnd = get16 m at_wnd in if ltb c.initialmss wnd || wnd == 0 then c.initialmss else wnd

  -- Urgent data are skipped, new data counted in, and the segment size set by the peer's window.
  unfoldable pub take_data : ℕ → Stack A → Stack A
  take_data i s =
      let rest = skip_urgent s in
      update i (λ c. record c { mss = window_mss s.buf c })
        (if ltb 0 rest.len && not (has_bit (s.conns i).tcpstateflags uip_stopped)
          then uip_add_rcv_nxt i rest.len (record rest { flags = set_bit rest.flags uip_newdata })
          else rest)

  unfoldable pub in_established : ℕ → Stack A → Stack A
  unfolding take_data
  in_established i s =
      if has_bit (s.buf at_flags) tcp_fin && not (has_bit (s.conns i).tcpstateflags uip_stopped)
      then closed_by_peer i s
      else let s = take_data i s in
        if has_bit s.flags uip_newdata || has_bit s.flags uip_ackdata
        then appsend i (appcall (record s { slen = 0 }))
        else drop_packet s

  unfoldable pub in_last_ack : ℕ → Stack A → Stack A
  in_last_ack i s =
      if has_bit s.flags uip_ackdata
      then drop_packet (call_with uip_close (set_state i uip_closed s))
      else drop_packet s

  unfoldable pub in_fin_wait_1 : ℕ → Stack A → Stack A
  in_fin_wait_1 i s =
      let had_data = ltb 0 s.len in
      let acked = has_bit s.flags uip_ackdata in
      let s = if had_data then uip_add_rcv_nxt i s.len s else s in
      if has_bit (s.buf at_flags) tcp_fin
      then (let s =
            if acked
            then update i (λ c. record c { tcpstateflags = uip_time_wait; timer = 0; len = 0 }) s
            else set_state i uip_closing s in
          tcp_send_ack i (call_with uip_close (uip_add_rcv_nxt i 1 s)))
      else if acked
      then drop_packet (update i (λ c. record c { tcpstateflags = uip_fin_wait_2; len = 0 }) s)
      else if had_data
      then tcp_send_ack i s
      else drop_packet s

  unfoldable pub in_fin_wait_2 : ℕ → Stack A → Stack A
  in_fin_wait_2 i s =
      let had_data = ltb 0 s.len in
      let s = if had_data then uip_add_rcv_nxt i s.len s else s in
      if has_bit (s.buf at_flags) tcp_fin
      then (let s = update i (λ c. record c { tcpstateflags = uip_time_wait; timer = 0 }) s in
          tcp_send_ack i (call_with uip_close (uip_add_rcv_nxt i 1 s)))
      else if had_data
      then tcp_send_ack i s
      else drop_packet s

  unfoldable pub in_closing : ℕ → Stack A → Stack A
  in_closing i s =
      if has_bit s.flags uip_ackdata
      then drop_packet (update i (λ c. record c { tcpstateflags = uip_time_wait; timer = 0 }) s)
      else drop_packet s

  -- the `switch`
  unfoldable pub dispatch : ℕ → Stack A → Option (Stack A)
  dispatch i s =
      let state = state_of (s.conns i) in
      if state == uip_syn_rcvd
      then some (in_syn_rcvd i s)
      else if state == uip_syn_sent
      then in_syn_sent i s
      else if state == uip_established
      then some (in_established i s)
      else if state == uip_last_ack
      then some (in_last_ack i s)
      else if state == uip_fin_wait_1
      then some (in_fin_wait_1 i s)
      else if state == uip_fin_wait_2
      then some (in_fin_wait_2 i s)
      else if state == uip_time_wait
      then some (tcp_send_ack i s)
      else if state == uip_closing
      then some (in_closing i s)
      else some (drop_packet s)
