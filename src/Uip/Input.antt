-- ===== src/Uip/Input.antt =====
-- The parts of the input in `uip_process` that call no application: the acknowledgement of data, the
-- round trip estimate, the labels `reset`, `icmp_input` and `found_listen`.
use mathlib.Core.Option
pub mod Echo
use fx_ip.Base.{
  Bool, Mem, Option, [], if◌then◌else◌, leb, ltb, none, not, some, ℕ, ◌%◌, ◌&&◌, ◌*◌, ◌+◌, ◌-◌, ◌/◌,
  ◌==◌, ◌^◌, ◌||◌, ◌∷◌,
}
use fx_ip.Uip.Config.{
  at_ackno, at_destipaddr, at_destport, at_flags, at_icmp_type, at_icmpchksum, at_proto, at_seqno,
  at_srcipaddr, at_srcport, at_tcpoffset, icmp_drop, icmp_recv, icmp_sent, icmp_typeerr, ip_drop,
  ip_protoerr, tcp_ack, tcp_fin, tcp_rst, tcp_rst_sent, tcp_syn, tcp_syndrop, uip_conns,
  uip_proto_icmp, uip_rto, uip_syn_rcvd, uip_syn_sent,
}
use fx_ip.Uip.Options.{apply_mss, parse_mss}
use fx_ip.Uip.Ports.{find_unused}
use fx_ip.Uip.Send.{drop_packet, send, tcp_send_noconn, tcp_send_synack}
use fx_ip.Uip.Seq.{Seq, increment, uip_add32}
use fx_ip.Uip.State.{
  Conn, Stack, bytes16, bytes_ip, bytes_seq, count, fill, get16, get_ip, get_seq, has_bit, say,
  update,
}

-- `c = (BUF->tcpoffset >> 4) << 2`
abbrev pub header_len : Mem → ℕ
header_len m = m at_tcpoffset / 16 * 4

-- `BUF->flags & TCP_CTL`
abbrev pub control : Mem → ℕ
control m = m at_flags % 64

abbrev pub same_seq : Seq → Seq → Bool
same_seq a b = a.b0 == b.b0 && a.b1 == b.b1 && a.b2 == b.b2 && a.b3 == b.b3

abbrev pub state_of : Conn → ℕ
state_of c = c.tcpstateflags % 16

-- The round trip estimate: `m` is a `signed char`, kept as a byte in two's complement.
unfoldable pub estimate : Conn → Conn
estimate c =
    let m = (c.rto + 2 ^ 8 - c.timer) % 2 ^ 8 in
    let m = (m + 2 ^ 8 - c.sa / 8) % 2 ^ 8 in
    let sa = (c.sa + m) % 2 ^ 8 in
    let m = if ltb 127 m then 2 ^ 8 - m else m in
    let m = (m + 2 ^ 8 - c.sv / 4) % 2 ^ 8 in
    let sv = (c.sv + m) % 2 ^ 8 in record c { sa = sa; sv = sv; rto = (sa / 8 + sv) % 2 ^ 8 }

-- what an acknowledgement of all outstanding data changes
unfoldable pub acknowledged : Conn → Conn
unfolding estimate
acknowledged c =
    let c = record c { snd_nxt = uip_add32 c.snd_nxt c.len } in
    let c = if c.nrtx == 0 then estimate c else c in record c { timer = c.rto; len = 0 }

-- Does the segment acknowledge all outstanding data?
abbrev pub acks_all : Mem → Conn → Bool
acks_all m c =
    has_bit (m at_flags) tcp_ack
    && not (c.len == 0)
    && same_seq (get_seq m at_ackno) (uip_add32 c.snd_nxt c.len)

-- Is this data, a SYN or a FIN with another sequence number than the one expected?
abbrev pub out_of_order : Mem → ℕ → Conn → Bool
out_of_order m datalen c =
    not (state_of c == uip_syn_sent && control m == tcp_syn + tcp_ack)
    && (ltb 0 datalen || has_bit (m at_flags) tcp_syn || has_bit (m at_flags) tcp_fin)
    && not (same_seq (get_seq m at_seqno) c.rcv_nxt)

module _ {A : Type 0} where
  -- `uip_add_rcv_nxt(n)`, with `n` taken as a `u16_t`
  abbrev pub uip_add_rcv_nxt : ℕ → ℕ → Stack A → Stack A
  uip_add_rcv_nxt i n = update i (λ c. record c { rcv_nxt = uip_add32 c.rcv_nxt (n % 2 ^ 16) })

  abbrev pub set_state : ℕ → ℕ → Stack A → Stack A
  set_state i state = update i (λ c. record c { tcpstateflags = state })

  -- label `reset`
  unfoldable pub reset : Stack A → Stack A
  reset s =
      if has_bit (s.buf at_flags) tcp_rst
      then drop_packet s
      else let s =
          record (fill at_tcpoffset (0x50 ∷ [])
            (fill at_flags ((tcp_rst + tcp_ack) ∷ []) (count tcp_rst_sent s))) { len = 40 } in
        let seqno = get_seq s.buf at_seqno in
        let ackno = get_seq s.buf at_ackno in
        let srcport = get16 s.buf at_srcport in
        let destport = get16 s.buf at_destport in
        let srcipaddr = get_ip s.buf at_srcipaddr in
        tcp_send_noconn (
          fill at_srcipaddr (bytes_ip s.hostaddr) (
            fill at_destipaddr (bytes_ip srcipaddr) (
              fill at_destport (bytes16 srcport) (
                fill at_srcport (bytes16 destport) (
                  fill at_ackno (bytes_seq (increment seqno))
                    (fill at_seqno (bytes_seq ackno) s))))))

  -- the ICMP echo, from the check of the protocol on
  unfoldable pub icmp_input : Stack A → Stack A
  icmp_input s =
      if not (s.buf at_proto == uip_proto_icmp)
      then drop_packet (say "ip: neither tcp nor icmp." (count ip_protoerr (count ip_drop s)))
      else let s = count icmp_recv s in
        if not (s.buf at_icmp_type == 8)
        then drop_packet (say "icmp: not icmp echo." (count icmp_typeerr (count icmp_drop s)))
        else let sum = get16 s.buf at_icmpchksum in
          let s = fill at_icmp_type (0 ∷ []) s in
          let s =
            fill at_icmpchksum
              (bytes16 (
                if leb (0xffff - 0x800) sum
                then (sum + 0x800 + 1) % 2 ^ 16
                else (sum + 0x800) % 2 ^ 16))
              s in
          let src = get_ip s.buf at_srcipaddr in
          send (
            count icmp_sent
              (fill at_srcipaddr (bytes_ip s.hostaddr) (fill at_destipaddr (bytes_ip src) s)))

  -- the connection that a SYN for a listening port fills in
  abbrev pub accepted_syn : Stack A → Conn → Conn
  accepted_syn s c = record c {
    rto = uip_rto;
    timer = uip_rto;
    sa = 0;
    sv = 4;
    nrtx = 0;
    lport = get16 s.buf at_destport;
    rport = get16 s.buf at_srcport;
    ripaddr = get_ip s.buf at_srcipaddr;
    tcpstateflags = uip_syn_rcvd;
    snd_nxt = s.iss;
    len = 1;
    rcv_nxt = uip_add32 (get_seq s.buf at_seqno) 1;
  }

  -- label `found_listen`, with the entry that was found; `none`: the call does not return
  abbrev pub listen_on : Stack A → Option ℕ → Option (Stack A)
  listen_on s none =
      some (drop_packet (say "tcp: found no unused connections." (count tcp_syndrop s)))
  listen_on s (some i) =
      Option.map
        (λ v.
          tcp_send_synack i
            (update i (λ c. apply_mss v (accepted_syn s c)) (record s { conn = i })))
        (parse_mss s.buf)

  unfoldable pub found_listen : Stack A → Option (Stack A)
  found_listen s = listen_on s (find_unused s.conns uip_conns 0 none)
