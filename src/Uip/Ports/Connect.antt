-- ===== src/Uip/Ports/Connect.antt =====
-- `uip_connect` as a whole, and the table of listening ports.
use fx_ip.Base.{Option, arith, false, none, refl, some, true, ℕ, ◌<◌, ◌==◌, ◌≡◌, ◌≢◌}
use fx_ip.Uip.Config.{uip_conns, uip_syn_sent}
use fx_ip.Uip.Ports.{choose_port, find_unused, opened, port_fuel, port_used, uip_connect}
use fx_ip.Uip.State.{Ip, Stack, update}
use fx_ip.Uip.Ports.Choice.{IsChoice, choose_port_free, find_unused-IsChoice}

abbrev pub Opened : {A : Type 0} → Ip → ℕ → Stack A → Stack A → Option ℕ → Type 0
Opened ripaddr rport s s' none = s'.conns ≡ s.conns
Opened ripaddr rport s s' (some i) =
    (port_used s.conns (s'.conns i).lport uip_conns 0 ≡ false)
    × ((s'.conns i).tcpstateflags ≡ uip_syn_sent)
    × ((s'.conns i).rport ≡ rport)
    × ((s'.conns i).ripaddr ≡ ripaddr)
    × ((s'.conns i).snd_nxt ≡ s.iss)
    × ((s'.conns i).len ≡ 1)
    × ((j : ℕ) → j ≢ i → s'.conns j ≡ s.conns j)

==_refl : (i : ℕ) → (i == i) ≡ true
==_refl i = ground arith

module _ {A : Type 0} (ripaddr : Ip) (rport : ℕ) (s : Stack A) where
  connect_with :
      (port : ℕ) (r : Option ℕ)
      → choose_port port_fuel s.conns s.lastport ≡ some port
      → find_unused s.conns uip_conns 0 none ≡ r
      → port_used s.conns port uip_conns 0 ≡ false
      → (s' : Stack A) × (uip_connect ripaddr rport s ≡ some (s', r))
        × (s'.lastport ≡ port)
        × Opened ripaddr rport s s' r
  unfolding uip_connect
  connect_with port none e f u = (record s { lastport = port }, rw (e, f), refl, refl)
  connect_with port (some i) e f u = (
    update i (opened s ripaddr rport port) (record s { lastport = port }),
    rw (e, f),
    refl,
    (
      rw (==_refl i) u,
      rw (==_refl i),
      rw (==_refl i),
      rw (==_refl i),
      rw (==_refl i),
      rw (==_refl i),
      λ j ne. ground arith,
    ),
  )

-- With its last port below 32000, `uip_connect` returns: it opens a closed connection, or the one
-- longest in TIME_WAIT, if there is one, towards the given host and port, from a port that no open
-- connection uses, in SYN_SENT with the current `iss` as its number and one byte outstanding,
-- leaves every other connection alone, and changes none if all are in use; the last port stays
-- below 32000.
pub uip_connect_lem :
    {A : Type 0} (ripaddr : Ip) (rport : ℕ) (s : Stack A)
    → s.lastport < 32000
    → (s' : Stack A) × (r : Option ℕ) × (uip_connect ripaddr rport s ≡ some (s', r))
      × IsChoice s.conns uip_conns r
      × Opened ripaddr rport s s' r
      × (s'.lastport < 32000)
uip_connect_lem ripaddr rport s h =
    let (port, e, pos, small, free) = choose_port_free s.conns s.lastport h in
    let r : Option ℕ = find_unused s.conns uip_conns 0 none in
    let (s', made, last, opened) = connect_with ripaddr rport s port r e refl free in
    (s', r, made, find_unused-IsChoice s.conns, opened, omega arith)
