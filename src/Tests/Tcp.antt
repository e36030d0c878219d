-- ===== src/Tests/Tcp.antt =====
-- Tests of src/uip/uip.c: a stack with one established connection.
use fx_ip.Base.{
  IsBytes, Mem, Option, [], arith, false, if◌then◌else◌, inl, none, refl, some, ◌⊎◌, ◌≤◌, true, ℕ,
  ◌%◌, ◌*◌, ◌+◌, ◌<◌, ◌==◌, ◌||◌, ◌≡◌, ◌≢◌,
}
use fx_ip.Uip.Chksum.{chksum, chksum-eq-ones, ones, word_sum}
use fx_ip.Uip.Config.{uip_closed, uip_conns}
use fx_ip.Uip.Input.{icmp_input, state_of}
use fx_ip.Uip.Input.Echo.{icmp_input-chksum}
use fx_ip.Uip.Options.{mss_loop, options_end, parse_mss}
use fx_ip.Uip.Options.Ends.{
  IsOption, NoWrap, behind, behind_nop, first, mss_loop_hangs, parse_mss_ends,
}
use fx_ip.Uip.Ports.{
  choose_port, find_unused, listening, port_fuel, port_used, uip_connect, uip_listen, uip_unlisten,
}
use fx_ip.Uip.Ports.Choice.{IsChoice, choose_port_free, find_unused-IsChoice}
use fx_ip.Uip.Ports.Connect.{Opened, uip_connect_lem}
use fx_ip.Uip.Ports.Listen.{listens, uip_listen_lem}
use fx_ip.Uip.Process.{found_conn, ip_input}
use fx_ip.Uip.Process.Moves.{allowed}
use fx_ip.Uip.Process.Moves.Segment.{found_conn-moves}
use fx_ip.Uip.Process.Reject.{Dropped, IsSound, ip_input_rejects}
use fx_ip.Uip.Process.Timer.{ticks, ticks_close}
use fx_ip.Uip.Send.{tcp_send_noconn, uip_ipchksum, uip_tcpchksum}
use fx_ip.Uip.Send.Verifies.{tcp_send_noconn-verifies}
use fx_ip.Uip.Seq.{IsSeq, Seq}
use fx_ip.Uip.State.{Conn, Ip, Stack}

abbrev number : Seq
number = record { b0 = 1; b1 = 255; b2 = 255; b3 = 250 }

number-IsSeq : IsSeq number
number-IsSeq = omega arith

abbrev bytes : Mem
bytes = λ i. (i * 37) % 256

bytes-IsBytes : IsBytes bytes
bytes-IsBytes = λ i. omega arith

chksum-eq-ones_example : chksum 5 bytes 3 21 ≡ ones (5 + word_sum bytes 3 21)
chksum-eq-ones_example = chksum-eq-ones 5 bytes 3 21 (omega arith) bytes-IsBytes

abbrev conn : Conn
conn = record {
  ripaddr = record { hi = 0x0a00; lo = 1 };
  lport = 4097;
  rport = 6667;
  rcv_nxt = number;
  snd_nxt = number;
  len = 100;
  mss = 1460;
  initialmss = 1460;
  sa = 0;
  sv = 4;
  rto = 3;
  tcpstateflags = 3;
  timer = 2;
  nrtx = 7;
}

abbrev pub stack : Stack ℕ
stack = record {
  buf = bytes;
  len = 60;
  slen = 0;
  appdata = 40;
  sappdata = 40;
  flags = 0;
  conn = 0;
  conns = λ i. if i == 0 then conn else record conn { tcpstateflags = 0 };
  listenports = λ i. 0;
  hostaddr = record { hi = 0x0a00; lo = 2 };
  ipid = 0;
  iss = number;
  lastport = 4096;
  stat = λ i. 0;
  log = [];
  app = 0;
}

tcp_send_noconn-verifies_example :
    (uip_tcpchksum (tcp_send_noconn stack).buf ≡ 0xffff)
    × (uip_ipchksum (tcp_send_noconn stack).buf ≡ 0xffff)
tcp_send_noconn-verifies_example =
    tcp_send_noconn-verifies stack bytes-IsBytes (omega arith) (omega arith)

-- a SYNACK with twelve bytes of options: two NOPs, and a timestamp that holds the bytes 2 and 253
abbrev stamped : Mem
stamped = λ i.
    if i == 24 || i == 28
    then 1
    else if i == 25 || i == 26 || i == 29 || i == 30
    then 255
    else if i == 27
    then 250
    else if i == 31
    then 251
    else if i == 32
    then 0x80
    else if i == 33
    then 0x12
    else if i == 40 || i == 41
    then 1
    else if i == 42
    then 8
    else if i == 43
    then 10
    else if i == 44
    then 2
    else if i == 45
    then 253
    else 0

-- where the options stand
stamped_options : {c : ℕ} → IsOption stamped c → (c ≡ 0) ⊎ (c ≡ 1) ⊎ (c ≡ 2) ⊎ (12 ≤ c)
stamped_options first = inl refl
stamped_options (behind_nop {c} o nop) = ground (arith, stamped_options o)
stamped_options (behind {c} o long) = ground (arith, stamped_options o)

stamped-NoWrap : NoWrap stamped (options_end stamped)
stamped-NoWrap c o below long = ground (arith, stamped_options o)

parse_mss_ends_example : parse_mss stamped ≢ none
parse_mss_ends_example = parse_mss_ends stamped (omega arith) stamped-NoWrap

-- a NOP, and then an option with length byte 255
abbrev endless : Mem
endless = λ i. if i == 32 then 0x60 else if i == 40 then 1 else if i == 41 then 3 else 255

mss_loop_hangs_example : mss_loop 1000 endless 0 ≡ none
mss_loop_hangs_example = mss_loop_hangs 1000 endless (omega arith) refl (omega arith) refl

find_unused-IsChoice_example :
    IsChoice stack.conns uip_conns (find_unused stack.conns uip_conns 0 none)
find_unused-IsChoice_example = find_unused-IsChoice stack.conns

choose_port_free_example :
    (port : ℕ) × (choose_port port_fuel stack.conns 4096 ≡ some port)
    × (0 < port)
    × (port < 32000)
    × (port_used stack.conns port uip_conns 0 ≡ false)
choose_port_free_example = choose_port_free stack.conns 4096 (omega arith)

abbrev server : Ip
server = record { hi = 0xc0a8; lo = 1 }

uip_connect_lem_example :
    (s' : Stack ℕ) × (r : Option ℕ) × (uip_connect server 80 stack ≡ some (s', r))
    × IsChoice stack.conns uip_conns r
    × Opened server 80 stack s' r
    × (s'.lastport < 32000)
uip_connect_lem_example = uip_connect_lem server 80 stack (omega arith)

ticks_close_example : ((ticks (λ s. s) 0 52 stack).conns 0).tcpstateflags ≡ uip_closed
ticks_close_example = ticks_close (λ s. s) (λ s. refl) 0 52 stack (omega arith) (omega arith)

-- a connection in SYN_SENT, whose SYN that segment acknowledges
abbrev opening : Stack ℕ
opening = record stack {
  buf = stamped;
  len = 52;
  conns = λ i. record conn { len = 1; tcpstateflags = 2 };
}

found_conn-moves_example :
    (s' : Stack ℕ) × (found_conn (λ s. s) 0 opening ≡ some s')
    × (allowed 2 (state_of (s'.conns 0)) ≡ true)
found_conn-moves_example =
    found_conn-moves (λ s. s) (λ s. refl) 0 opening (omega arith) (λ e. stamped-NoWrap)

-- an echo request
abbrev echo_request : Mem
echo_request = λ i. if i == 9 then 1 else if i == 20 then 8 else bytes i

ping-IsBytes : IsBytes echo_request
ping-IsBytes i = ground (arith, bytes-IsBytes i)

ping_body : 0 < word_sum echo_request 24 60
unfolding word_sum
ping_body = omega arith

abbrev pinged : Stack ℕ
pinged = record stack { buf = echo_request; len = 84 }

icmp_input-chksum_example :
    ones (word_sum (icmp_input pinged).buf 20 64) ≡ ones (word_sum echo_request 20 64)
icmp_input-chksum_example = icmp_input-chksum pinged 60 ping-IsBytes refl refl ping_body

one_free : listens stack 0 ≡ true
unfolding listening
one_free = refl

uip_listen_lem_example :
    (listens (uip_listen 80 stack) 80 ≡ true)
    × (listens (uip_listen 80 stack) 22 ≡ listens stack 22)
    × (listens (uip_unlisten 80 stack) 22 ≡ listens stack 22)
uip_listen_lem_example = uip_listen_lem 80 22 stack one_free (omega arith) (omega arith)

-- a packet that is shorter than its header says
abbrev runt : Stack ℕ
runt = record stack { buf = λ i. if i == 0 then 0x45 else if i == 2 then 1 else 0; len = 100 }

runt_unsound : ¬ IsSound runt
runt_unsound h = absurd (omega (arith, h.whole))

ip_input_rejects_example : Dropped (λ s. s) runt (ip_input (λ s. s) runt)
ip_input_rejects_example = ip_input_rejects (λ s. s) runt runt_unsound
