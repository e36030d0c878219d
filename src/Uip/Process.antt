-- ===== src/Uip/Process.antt =====
-- `uip_process`: the entries for the timer, for a poll and for a packet.
pub mod Timer
pub mod Moves
pub mod Reject
use fx_ip.Base.{
  Bool, Option, [], if◌then◌else◌, ltb, none, not, some, ℕ, ◌%◌, ◌&&◌, ◌*◌, ◌+◌, ◌-◌, ◌==◌, ◌^◌,
  ◌||◌, ◌∷◌,
}
use fx_ip.Uip.Config.{
  at_destipaddr, at_destport, at_flags, at_ipoffset, at_len, at_proto, at_vhl, ip_chkerr, ip_drop,
  ip_fragerr, ip_recv, ip_vhlerr, tcp_ack, tcp_chkerr, tcp_drop, tcp_recv, tcp_rexmit, tcp_rst,
  tcp_syn, tcp_synrst, uip_abort, uip_ackdata, uip_closed, uip_closing, uip_conns, uip_established,
  uip_fin_wait_1, uip_fin_wait_2, uip_last_ack, uip_listenports, uip_maxrtx, uip_maxsynrtx,
  uip_poll, uip_proto_tcp, uip_rexmit, uip_rto, uip_syn_rcvd, uip_syn_sent, uip_time_wait,
  uip_time_wait_timeout, uip_timedout,
}
use fx_ip.Uip.Input.{
  acknowledged, acks_all, control, found_listen, header_len, icmp_input, out_of_order, reset,
  set_state, state_of,
}
use fx_ip.Uip.Ports.{demux, listening}
use fx_ip.Uip.Send.{
  apprexmit, appsend, drop_packet, tcp_send_ack, tcp_send_finack, tcp_send_flags, tcp_send_syn,
  tcp_send_synack, uip_ipchksum, uip_tcpchksum,
}
use fx_ip.Uip.Seq.{increment}
use fx_ip.Uip.State.{
  Conn, Stack, count, fill, get16, get_ip, has_bit, say, sub16, uip_ipaddr_cmp, update,
}
use fx_ip.Uip.States.{call_with, dispatch}

-- the argument of `uip_process`
pub data Flag : Type 0 where
  uip_data uip_timer uip_poll_request : Flag

-- the timeout of the last retransmission
abbrev pub gives_up : Conn → Bool
gives_up c =
    c.nrtx == uip_maxrtx
    || ((c.tcpstateflags == uip_syn_sent || c.tcpstateflags == uip_syn_rcvd)
        && c.nrtx == uip_maxsynrtx)

-- the exponential backoff
abbrev pub backed_off : Conn → Conn
backed_off c = record c {
  timer = uip_rto * 2 ^ (if ltb 4 c.nrtx then 4 else c.nrtx);
  nrtx = (c.nrtx + 1) % 2 ^ 8;
}

module _ {A : Type 0} (appcall : Stack A → Stack A) where
  -- label `found`: a segment of connection `i`
  unfoldable pub found_conn : ℕ → Stack A → Option (Stack A)
  found_conn i s =
      let s = record s { conn = i; flags = 0 } in
      if has_bit (s.buf at_flags) tcp_rst
      then some (
          drop_packet (
            call_with appcall uip_abort
              (say "tcp: got reset, aborting connection." (set_state i uip_closed s))))
      else let s = record s { len = sub16 (sub16 s.len (header_len s.buf)) 20 } in
        if out_of_order s.buf s.len (s.conns i)
        then some (tcp_send_ack i s)
        else if acks_all s.buf (s.conns i)
        then dispatch appcall i (record (update i acknowledged s) { flags = uip_ackdata })
        else dispatch appcall i s

  -- `tcp_input` behind the search for the connection
  unfoldable pub deliver : Option ℕ → Stack A → Option (Stack A)
  deliver (some i) s = found_conn i s
  deliver none s =
      if not (control s.buf == tcp_syn)
      then some (reset s)
      else if listening s.listenports (get16 s.buf at_destport) uip_listenports 0
      then found_listen s
      else some (reset (count tcp_synrst s))

  -- label `tcp_input`
  unfoldable pub tcp_input : Stack A → Option (Stack A)
  tcp_input s =
      let s = count tcp_recv s in
      if not (uip_tcpchksum s.buf == 0xffff)
      then some (drop_packet (say "tcp: bad checksum." (count tcp_chkerr (count tcp_drop s))))
      else deliver (demux s.buf s.conns uip_conns 0) s

  -- the input of a packet: the checks of the IP header
  unfoldable pub ip_input : Stack A → Option (Stack A)
  ip_input s =
      let s = count ip_recv s in
      let total = get16 s.buf at_len in
      if not (s.buf at_vhl == 0x45)
      then some (
          drop_packet
            (say "ip: invalid version or header length." (count ip_vhlerr (count ip_drop s))))
      else if ltb s.len total
      then some (drop_packet (say "ip: packet shorter than reported in IP header." s))
      else let s = record s { len = total } in
        if not (s.buf at_ipoffset % 64 == 0) || not (s.buf (at_ipoffset + 1) == 0)
        then some (drop_packet (say "ip: fragment dropped." (count ip_fragerr (count ip_drop s))))
        else if not (uip_ipaddr_cmp s.hostaddr (record { hi = 0; lo = 0 }))
            && not (uip_ipaddr_cmp (get_ip s.buf at_destipaddr) s.hostaddr)
        then some (drop_packet (count ip_drop s))
        else if not (uip_ipchksum s.buf == 0xffff)
        then some (drop_packet (say "ip: bad checksum." (count ip_chkerr (count ip_drop s))))
        else if s.buf at_proto == uip_proto_tcp
        then tcp_input s
        else some (icmp_input s)

  -- UIP_POLL_REQUEST for connection `i`
  unfoldable pub poll_input : ℕ → Stack A → Stack A
  poll_input i s =
      if state_of (s.conns i) == uip_established && (s.conns i).len == 0
      then appsend i (call_with appcall uip_poll s)
      else drop_packet s

  -- the retransmission, by state
  unfoldable pub retransmit : ℕ → Stack A → Stack A
  retransmit i s =
      let state = state_of (s.conns i) in
      if state == uip_syn_rcvd
      then tcp_send_synack i s
      else if state == uip_syn_sent
      then tcp_send_syn i (fill at_flags (0 ∷ []) s)
      else if state == uip_established
      then apprexmit i (call_with appcall uip_rexmit s)
      else if state == uip_fin_wait_1 || state == uip_closing || state == uip_last_ack
      then tcp_send_finack i s
      else drop_packet s

  -- a connection with data outstanding: `if(uip_connr->timer-- == 0) …`
  unfoldable pub outstanding_timer : ℕ → Stack A → Stack A
  outstanding_timer i s =
      let expired = (s.conns i).timer == 0 in
      let s = update i (λ c. record c { timer = (c.timer + 2 ^ 8 - 1) % 2 ^ 8 }) s in
      if not expired
      then drop_packet s
      else if gives_up (s.conns i)
      then tcp_send_flags (tcp_rst + tcp_ack) i
          (call_with appcall uip_timedout (set_state i uip_closed s))
      else retransmit i (count tcp_rexmit (update i backed_off s))

  -- UIP_TIMER for connection `i`
  unfoldable pub timer_input : ℕ → Stack A → Stack A
  timer_input i s =
      let s = record s { iss = increment s.iss; len = 0; slen = 0 } in
      let c = s.conns i in
      let timer = (c.timer + 1) % 2 ^ 8 in
      if c.tcpstateflags == uip_time_wait || c.tcpstateflags == uip_fin_wait_2
      then drop_packet (
          update i
            (λ c. record c {
              timer = timer;
              tcpstateflags =
                  if timer == uip_time_wait_timeout then uip_closed else c.tcpstateflags;
            })
            s)
      else if c.tcpstateflags == uip_closed
      then drop_packet s
      else if not (c.len == 0)
      then outstanding_timer i s
      else if state_of c == uip_established
      then appsend i (call_with appcall uip_poll s)
      else drop_packet s

  -- `sappdata = appdata = &uip_buf[UIP_IPTCPH_LEN + UIP_LLH_LEN]`
  abbrev point_at_data : Stack A → Stack A
  point_at_data s = record s { appdata = 40; sappdata = 40 }

  -- `uip_process(flag)`; `none`: the call does not return
  unfoldable pub uip_process : Flag → Stack A → Option (Stack A)
  uip_process uip_data s = ip_input (point_at_data s)
  uip_process uip_timer s = some (timer_input s.conn (point_at_data s))
  uip_process uip_poll_request s = some (poll_input s.conn (point_at_data s))
