-- ===== src/Uip/Ports.antt =====
-- The connection table and the ports: `uip_init`, `uip_listen`, `uip_unlisten`, `uip_connect`, and
-- the two searches of `uip_process` in the table.
pub mod Choice
pub mod Connect
pub mod Listen
use mathlib.Core.Option
use fx_ip.Base.{
  Bool, List, Mem, Option, [], false, if◌then◌else◌, leb, ltb, map, none, not, poke, some, suc,
  zero, ℕ, ◌%◌, ◌&&◌, ◌+◌, ◌/◌, ◌==◌, ◌^◌, ◌||◌, ◌∷◌,
}
use fx_ip.Uip.Config.{
  at_destport, at_srcipaddr, at_srcport, uip_closed, uip_conns, uip_listenports, uip_rto,
  uip_syn_sent, uip_tcp_mss, uip_time_wait,
}
use fx_ip.Uip.Seq.{Seq}
use fx_ip.Uip.State.{Conn, Ip, Stack, get16, get_ip, uip_ipaddr_cmp, update}

-- the loops over `uip_conns[i]` … with `n` entries left

-- the connection that a segment belongs to
abbrev pub segment_for : Mem → Conn → Bool
segment_for m c =
    not (c.tcpstateflags == uip_closed)
    && get16 m at_destport == c.lport
    && get16 m at_srcport == c.rport
    && uip_ipaddr_cmp (get_ip m at_srcipaddr) c.ripaddr

unfoldable pub demux : Mem → (ℕ → Conn) → ℕ → ℕ → Option ℕ
demux m conns zero i = none
demux m conns (suc n) i = if segment_for m (conns i) then some i else demux m conns n (i + 1)

-- Is entry `i` a better choice than the one found so far? It is in TIME_WAIT, and older.
abbrev pub better : (ℕ → Conn) → Option ℕ → ℕ → Bool
better conns none i = (conns i).tcpstateflags == uip_time_wait
better conns (some j) i =
    (conns i).tcpstateflags == uip_time_wait && ltb (conns j).timer (conns i).timer

-- a closed entry, or else the one that has been longest in TIME_WAIT
unfoldable pub find_unused : (ℕ → Conn) → ℕ → ℕ → Option ℕ → Option ℕ
find_unused conns zero i best = best
find_unused conns (suc n) i best =
    if (conns i).tcpstateflags == uip_closed
    then some i
    else find_unused conns n (i + 1) (if better conns best i then some i else best)

-- Does a listening entry hold the port?
unfoldable pub listening : Mem → ℕ → ℕ → ℕ → Bool
listening ports port zero i = false
listening ports port (suc n) i = ports i == port || listening ports port n (i + 1)

-- the first entry from `i` on that holds the value, replaced
unfoldable pub replace_first : Mem → ℕ → ℕ → ℕ → ℕ → Mem
replace_first ports old new zero i = ports
replace_first ports old new (suc n) i =
    if ports i == old then poke ports i new else replace_first ports old new n (i + 1)

-- Does an open connection use the local port?
unfoldable pub port_used : (ℕ → Conn) → ℕ → ℕ → ℕ → Bool
port_used conns port zero i = false
port_used conns port (suc n) i =
    (not ((conns i).tcpstateflags == uip_closed) && (conns i).lport == port)
    || port_used conns port n (i + 1)

-- `++lastport; if(lastport >= 32000) lastport = 4096;`
abbrev pub next_port : ℕ → ℕ
next_port p = if leb 32000 ((p + 1) % 2 ^ 16) then 4096 else (p + 1) % 2 ^ 16

-- the loop from `again`: `none` when the fuel runs out
unfoldable pub choose_port : ℕ → (ℕ → Conn) → ℕ → Option ℕ
choose_port zero conns lastport = none
choose_port (suc fuel) conns lastport =
    let p = next_port lastport in
    let again = choose_port fuel conns p in if port_used conns p uip_conns 0 then again else some p

-- Ten connections use ten ports at most, so the eleventh port tried is free.
abbrev pub port_fuel : ℕ
port_fuel = 11

-- the loop that closes all entries
abbrev pub close_all : (ℕ → Conn) → ℕ → Conn
close_all conns i =
    if ltb i uip_conns then record (conns i) { tcpstateflags = uip_closed } else conns i

-- `while(lastport <= 1024)`, over the values that `rand()` gives; `none` when they are used up
unfoldable pub first_port : List ℕ → Option ℕ
first_port [] = none
first_port (r ∷ rs) = if leb (r % 32000) 1024 then first_port rs else some (r % 32000)

-- a 32-bit number as it lies in memory
abbrev pub seq_of : ℕ → Seq
seq_of n = record {
  b0 = n / 2 ^ 24 % 256;
  b1 = n / 2 ^ 16 % 256;
  b2 = n / 2 ^ 8 % 256;
  b3 = n % 256;
}

module _ {A : Type 0} where
  -- `uip_init`. The first value of `rand()` seeds `iss`, the second is not used, and the later ones
  -- are tried as ports.
  unfoldable pub uip_init : ℕ → ℕ → List ℕ → Stack A → Option (Stack A)
  uip_init seed skipped rands s = elim (first_port rands) [
    | none ↦ none
    | some port ↦ some (record s {
      listenports = λ i. if ltb i uip_listenports then 0 else s.listenports i;
      conns = close_all s.conns;
      iss = seq_of seed;
      lastport = port;
    })
  ]

  unfoldable pub uip_listen : ℕ → Stack A → Stack A
  uip_listen port s = record s {
    listenports = replace_first s.listenports 0 port uip_listenports 0;
  }

  unfoldable pub uip_unlisten : ℕ → Stack A → Stack A
  uip_unlisten port s = record s {
    listenports = replace_first s.listenports port 0 uip_listenports 0;
  }

  -- the entry that `uip_connect` fills in
  abbrev pub opened : Stack A → Ip → ℕ → ℕ → Conn → Conn
  opened s ripaddr rport port c = record c {
    tcpstateflags = uip_syn_sent;
    snd_nxt = s.iss;
    initialmss = uip_tcp_mss;
    mss = uip_tcp_mss;
    len = 1;
    nrtx = 0;
    timer = 1;
    rto = uip_rto;
    sa = 0;
    sv = 16;
    lport = port;
    rport = rport;
    ripaddr = ripaddr;
  }

  -- the rest of `uip_connect`, with the connection that was found
  abbrev pub connect_on : Ip → ℕ → Stack A → Option ℕ → Stack A × Option ℕ
  connect_on ripaddr rport s none = (s, none)
  connect_on ripaddr rport s (some i) = (update i (opened s ripaddr rport s.lastport) s, some i)

  -- `uip_connect`: the stack and the index of the connection, if one was free. The outer `none` means
  -- that the search for a port ran out of fuel.
  unfoldable pub uip_connect : Ip → ℕ → Stack A → Option (Stack A × Option ℕ)
  uip_connect ripaddr rport s =
      Option.map
        (λ port.
          connect_on ripaddr rport (record s { lastport = port })
            (find_unused s.conns uip_conns 0 none))
        (choose_port port_fuel s.conns s.lastport)
