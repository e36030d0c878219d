-- ===== src/Uip/Send.antt =====
-- The way out of `uip_process`: its labels from `apprexmit` and `tcp_send_synack` down to `send` and
-- `drop`. A `goto` is a call. `i` is the index of `uip_connr`.
pub mod Verifies
pub mod Keeps
use fx_ip.Base.{Mem, [], if◌then◌else◌, ltb, min, not, ℕ, ◌%◌, ◌&&◌, ◌+◌, ◌-◌, ◌/◌, ◌==◌, ◌^◌, ◌∷◌}
use fx_ip.Uip.Config.{
  at_ackno, at_destipaddr, at_destport, at_flags, at_ipchksum, at_ipid, at_ipoffset, at_len,
  at_optdata, at_proto, at_seqno, at_srcipaddr, at_srcport, at_tcpchksum, at_tcpoffset, at_ttl,
  at_urgp, at_vhl, at_wnd, ip_sent, tcp_ack, tcp_fin, tcp_psh, tcp_rst, tcp_sent, tcp_syn,
  uip_abort, uip_ackdata, uip_close, uip_closed, uip_fin_wait_1, uip_newdata, uip_proto_tcp,
  uip_stopped, uip_tcp_mss, uip_ttl,
}
use fx_ip.Uip.Chksum.{chksum}
use fx_ip.Uip.State.{
  Conn, Stack, bytes16, bytes_ip, bytes_seq, count, fill, get16, has_bit, set_bit, sub16, update,
}

-- `htons` is the identity on a big endian machine.
unfoldable pub htons : ℕ → ℕ
htons val = val

-- the result of `uip_ipchksum` and `upper_layer_chksum`: 0 is given as 0xffff
abbrev pub nonzero : ℕ → ℕ
nonzero sum = if sum == 0 then 0xffff else htons sum

unfoldable pub uip_ipchksum : Mem → ℕ
unfolding htons
uip_ipchksum m = nonzero (chksum 0 m 0 20)

-- the length of the TCP header and data by the IP header
abbrev pub upper_layer_len : Mem → ℕ
upper_layer_len m = sub16 (get16 m at_len) 20

unfoldable pub upper_layer_chksum : ℕ → Mem → ℕ
unfolding htons
upper_layer_chksum proto m = nonzero (
    chksum (chksum ((upper_layer_len m + proto) % 2 ^ 16) m at_srcipaddr 8) m 20
      (upper_layer_len m))

unfoldable pub uip_tcpchksum : Mem → ℕ
unfolding upper_layer_chksum
uip_tcpchksum m = upper_layer_chksum uip_proto_tcp m

-- `~x`, kept as a `u16_t`
abbrev pub not16 : ℕ → ℕ
not16 x = 0xffff - x

-- the window that is advertised
abbrev pub window_of : Conn → ℕ
window_of c = if has_bit c.tcpstateflags uip_stopped then 0 else uip_tcp_mss

module _ {A : Type 0} where
  unfoldable pub drop_packet : Stack A → Stack A
  drop_packet s = record s { len = 0; flags = 0 }

  -- label `send`
  unfoldable pub send : Stack A → Stack A
  send s = record (count ip_sent s) { flags = 0 }

  -- the IP header but for its checksum
  abbrev pub ip_header : Stack A → Stack A
  ip_header s =
      let ipid = (s.ipid + 1) % 2 ^ 16 in
      record (fill at_ipchksum (0 ∷ 0 ∷ []) (
        fill at_ipid (bytes16 ipid)
          (fill at_ipoffset (0 ∷ 0 ∷ []) (fill at_vhl (0x45 ∷ 0 ∷ []) s)))) { ipid = ipid }

  -- label `ip_send_nolen`
  unfoldable pub ip_send_nolen : Stack A → Stack A
  unfolding uip_ipchksum
  ip_send_nolen s =
      let s = ip_header s in
      send (count tcp_sent (fill at_ipchksum (bytes16 (not16 (uip_ipchksum s.buf))) s))

  -- label `tcp_send_noconn`, up to the TCP checksum
  abbrev pub tcp_lengths : Stack A → Stack A
  tcp_lengths s =
      fill at_tcpchksum (0 ∷ 0 ∷ [])
        (fill at_urgp (0 ∷ 0 ∷ []) (fill at_len (bytes16 s.len) (fill at_ttl (uip_ttl ∷ []) s)))

  unfoldable pub tcp_send_noconn : Stack A → Stack A
  unfolding uip_tcpchksum
  tcp_send_noconn s =
      let s = tcp_lengths s in
      ip_send_nolen (fill at_tcpchksum (bytes16 (not16 (uip_tcpchksum s.buf))) s)

  -- label `tcp_send`, up to `tcp_send_noconn`
  abbrev pub tcp_header : Conn → Stack A → Stack A
  tcp_header c s = fill at_wnd (bytes16 (window_of c)) (
      fill at_destipaddr (bytes_ip c.ripaddr) (
        fill at_srcipaddr (bytes_ip s.hostaddr) (
          fill at_destport (bytes16 c.rport) (
            fill at_srcport (bytes16 c.lport) (
              fill at_proto (uip_proto_tcp ∷ [])
                (fill at_seqno (bytes_seq c.snd_nxt) (fill at_ackno (bytes_seq c.rcv_nxt) s)))))))

  unfoldable pub tcp_send : ℕ → Stack A → Stack A
  tcp_send i s = tcp_send_noconn (tcp_header (s.conns i) s)

  unfoldable pub tcp_send_noopts : ℕ → Stack A → Stack A
  tcp_send_noopts i s = tcp_send i (fill at_tcpoffset (0x50 ∷ []) s)

  unfoldable pub tcp_send_nodata : ℕ → Stack A → Stack A
  tcp_send_nodata i s = tcp_send_noopts i (record s { len = 40 })

  -- `BUF->flags = f; goto tcp_send_nodata;`
  abbrev pub tcp_send_flags : ℕ → ℕ → Stack A → Stack A
  tcp_send_flags f i s = tcp_send_nodata i (fill at_flags (f ∷ []) s)

  unfoldable pub tcp_send_ack : ℕ → Stack A → Stack A
  tcp_send_ack = tcp_send_flags tcp_ack

  unfoldable pub tcp_send_finack : ℕ → Stack A → Stack A
  tcp_send_finack = tcp_send_flags (tcp_fin + tcp_ack)

  -- label `tcp_send_syn`, with the MSS option
  unfoldable pub tcp_send_syn : ℕ → Stack A → Stack A
  tcp_send_syn i s = tcp_send i (
      fill at_tcpoffset (0x60 ∷ [])
        (record (fill at_optdata (2 ∷ 4 ∷ uip_tcp_mss / 256 ∷ uip_tcp_mss % 256 ∷ [])
          (fill at_flags (set_bit (s.buf at_flags) tcp_syn ∷ []) s)) { len = 44 }))

  unfoldable pub tcp_send_synack : ℕ → Stack A → Stack A
  tcp_send_synack i s = tcp_send_syn i (fill at_flags (tcp_ack ∷ []) s)

  -- label `apprexmit`
  unfoldable pub apprexmit : ℕ → Stack A → Stack A
  apprexmit i s =
      let s = record s { appdata = s.sappdata } in
      if ltb 0 s.slen && ltb 0 (s.conns i).len
      then tcp_send_noopts i (
          fill at_flags ((tcp_ack + tcp_psh) ∷ [])
            (record s { len = ((s.conns i).len + 40) % 2 ^ 16 }))
      else if has_bit s.flags uip_newdata
      then tcp_send_noopts i (fill at_flags (tcp_ack ∷ []) (record s { len = 40 }))
      else drop_packet s

  -- the part of label `appsend` that settles how much is sent
  unfoldable pub limit_slen : ℕ → Stack A → Stack A
  limit_slen i s =
      let acked =
        if has_bit s.flags uip_ackdata then update i (λ c. record c { len = 0 }) s else s in
      let n = min s.slen (s.conns i).mss in
      if not (ltb 0 s.slen)
      then s
      else if (acked.conns i).len == 0
      then update i (λ c. record c { len = n }) (record acked { slen = n })
      else record acked { slen = (acked.conns i).len }

  -- label `appsend`
  unfoldable pub appsend : ℕ → Stack A → Stack A
  unfolding limit_slen
  appsend i s =
      if has_bit s.flags uip_abort
      then tcp_send_flags (tcp_rst + tcp_ack) i
          (update i (λ c. record c { tcpstateflags = uip_closed }) (record s { slen = 0 }))
      else if has_bit s.flags uip_close
      then tcp_send_flags (tcp_fin + tcp_ack) i (
          update i (λ c. record c { len = 1; tcpstateflags = uip_fin_wait_1; nrtx = 0 })
            (record s { slen = 0 }))
      else apprexmit i (update i (λ c. record c { nrtx = 0 }) (limit_slen i s))
