-- ===== src/Uip/Config.antt =====
-- The constants of uip.c, uip.h, uipopt.h and uip-conf.h that the stack uses.
use fx_ip.Base.{ℕ}

-- sizes and limits, from uip-conf.h and uipopt.h
abbrev pub uip_conns : ℕ
uip_conns = 10

abbrev pub uip_listenports : ℕ
uip_listenports = 10

abbrev pub uip_tcp_mss : ℕ
uip_tcp_mss = 1460

abbrev pub uip_rto : ℕ
uip_rto = 3

abbrev pub uip_maxrtx : ℕ
uip_maxrtx = 8

abbrev pub uip_maxsynrtx : ℕ
uip_maxsynrtx = 5

abbrev pub uip_time_wait_timeout : ℕ
uip_time_wait_timeout = 120

abbrev pub uip_ttl : ℕ
uip_ttl = 64

-- the states in `tcpstateflags`, and the flag behind them
abbrev pub uip_closed : ℕ
uip_closed = 0

abbrev pub uip_syn_rcvd : ℕ
uip_syn_rcvd = 1

abbrev pub uip_syn_sent : ℕ
uip_syn_sent = 2

abbrev pub uip_established : ℕ
uip_established = 3

abbrev pub uip_fin_wait_1 : ℕ
uip_fin_wait_1 = 4

abbrev pub uip_fin_wait_2 : ℕ
uip_fin_wait_2 = 5

abbrev pub uip_closing : ℕ
uip_closing = 6

abbrev pub uip_time_wait : ℕ
uip_time_wait = 7

abbrev pub uip_last_ack : ℕ
uip_last_ack = 8

abbrev pub uip_stopped : ℕ
uip_stopped = 16

-- the bits of `uip_flags`
abbrev pub uip_ackdata : ℕ
uip_ackdata = 1

abbrev pub uip_newdata : ℕ
uip_newdata = 2

abbrev pub uip_rexmit : ℕ
uip_rexmit = 4

abbrev pub uip_poll : ℕ
uip_poll = 8

abbrev pub uip_close : ℕ
uip_close = 16

abbrev pub uip_abort : ℕ
uip_abort = 32

abbrev pub uip_connected : ℕ
uip_connected = 64

abbrev pub uip_timedout : ℕ
uip_timedout = 128

-- the bits of the TCP flags
abbrev pub tcp_fin : ℕ
tcp_fin = 1

abbrev pub tcp_syn : ℕ
tcp_syn = 2

abbrev pub tcp_rst : ℕ
tcp_rst = 4

abbrev pub tcp_psh : ℕ
tcp_psh = 8

abbrev pub tcp_ack : ℕ
tcp_ack = 16

abbrev pub tcp_urg : ℕ
tcp_urg = 32

-- protocols
abbrev pub uip_proto_icmp : ℕ
uip_proto_icmp = 1

abbrev pub uip_proto_tcp : ℕ
uip_proto_tcp = 6

-- the counters of `uip_stat`, as places in one array
abbrev pub ip_drop : ℕ
ip_drop = 0

abbrev pub ip_recv : ℕ
ip_recv = 1

abbrev pub ip_sent : ℕ
ip_sent = 2

abbrev pub ip_vhlerr : ℕ
ip_vhlerr = 3

abbrev pub ip_fragerr : ℕ
ip_fragerr = 4

abbrev pub ip_chkerr : ℕ
ip_chkerr = 5

abbrev pub ip_protoerr : ℕ
ip_protoerr = 6

abbrev pub icmp_drop : ℕ
icmp_drop = 7

abbrev pub icmp_recv : ℕ
icmp_recv = 8

abbrev pub icmp_sent : ℕ
icmp_sent = 9

abbrev pub icmp_typeerr : ℕ
icmp_typeerr = 10

abbrev pub tcp_drop : ℕ
tcp_drop = 11

abbrev pub tcp_recv : ℕ
tcp_recv = 12

abbrev pub tcp_sent : ℕ
tcp_sent = 13

abbrev pub tcp_chkerr : ℕ
tcp_chkerr = 14

abbrev pub tcp_rst_sent : ℕ
tcp_rst_sent = 15

abbrev pub tcp_rexmit : ℕ
tcp_rexmit = 16

abbrev pub tcp_syndrop : ℕ
tcp_syndrop = 17

abbrev pub tcp_synrst : ℕ
tcp_synrst = 18

-- the offsets of the header fields in `uip_buf`
abbrev pub at_vhl : ℕ
at_vhl = 0

abbrev pub at_tos : ℕ
at_tos = 1

abbrev pub at_len : ℕ
at_len = 2

abbrev pub at_ipid : ℕ
at_ipid = 4

abbrev pub at_ipoffset : ℕ
at_ipoffset = 6

abbrev pub at_ttl : ℕ
at_ttl = 8

abbrev pub at_proto : ℕ
at_proto = 9

abbrev pub at_ipchksum : ℕ
at_ipchksum = 10

abbrev pub at_srcipaddr : ℕ
at_srcipaddr = 12

abbrev pub at_destipaddr : ℕ
at_destipaddr = 16

abbrev pub at_srcport : ℕ
at_srcport = 20

abbrev pub at_destport : ℕ
at_destport = 22

abbrev pub at_seqno : ℕ
at_seqno = 24

abbrev pub at_ackno : ℕ
at_ackno = 28

abbrev pub at_tcpoffset : ℕ
at_tcpoffset = 32

abbrev pub at_flags : ℕ
at_flags = 33

abbrev pub at_wnd : ℕ
at_wnd = 34

abbrev pub at_tcpchksum : ℕ
at_tcpchksum = 36

abbrev pub at_urgp : ℕ
at_urgp = 38

abbrev pub at_optdata : ℕ
at_optdata = 40

abbrev pub at_icmp_type : ℕ
at_icmp_type = 20

abbrev pub at_icmpchksum : ℕ
at_icmpchksum = 22
