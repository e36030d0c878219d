-- ===== src/Uip/Process/Moves/Segment.antt =====
-- The state that a segment leaves a connection in: label `found` of `uip_process`.
use fx_ip.Base.{Option, ap, none, refl, some, sym, true, ℕ, ◌%◌, ◌<◌, ◌==◌, ◌∙◌, ◌≡◌, ◌≢◌}
use fx_ip.Uip.Config.{at_flags, at_tcpoffset, tcp_rst, uip_ackdata, uip_closed, uip_syn_sent}
use fx_ip.Uip.Input.{
  acknowledged, acks_all, estimate, header_len, out_of_order, set_state, state_of,
}
use fx_ip.Uip.Options.{options_end, parse_mss}
use fx_ip.Uip.Options.Ends.{NoWrap, parse_mss_ends}
use fx_ip.Uip.Process.{found_conn}
use fx_ip.Uip.Process.Moves.{
  Goes, Goes-conns, Goes-set, allowed, allowed_closed, allowed_same, if-holds,
}
use fx_ip.Uip.Process.Moves.Switch.{Makes, Makes-dispatch}
use fx_ip.Uip.Process.Timer.{KeepsConns}
use fx_ip.Uip.Send.Keeps.{conns-drop_packet, conns-tcp_send_ack, if-same, if_self}
use fx_ip.Uip.State.{Conn, Stack, has_bit, sub16, update}

acknowledged-tcpstateflags : (c : Conn) → (acknowledged c).tcpstateflags ≡ c.tcpstateflags
unfolding acknowledged estimate
acknowledged-tcpstateflags c = if-same (λ (d : Conn). d.tcpstateflags) (c.nrtx == 0) _ _ _ refl refl

module _ {A : Type 0} (appcall : Stack A → Stack A) (keeps : KeepsConns appcall) (i : ℕ) where
  Makes-found_conn :
      (s : Stack A)
      → (state_of (s.conns i) ≡ uip_syn_sent → parse_mss s.buf ≢ none)
      → Makes appcall keeps i (state_of (s.conns i)) (found_conn appcall i s)
  unfolding found_conn
  Makes-found_conn s ends =
      if-holds P (has_bit (s.buf at_flags) tcp_rst) _ _
        (λ _. (
          _,
          refl,
          Goes-conns i a (set_state i uip_closed s) (conns-drop_packet _ ∙ keeps _) (
              Goes-set i a uip_closed (λ c. record c { tcpstateflags = uip_closed }) s (λ c. refl)
                (allowed_closed a)),
        ))
        (λ _.
          if-holds P (out_of_order s.buf datalen (s.conns i)) _ _
            (λ _. (_, refl, Goes-conns i a s (conns-tcp_send_ack i _) same))
            (λ _.
              if-holds P (acks_all s.buf (s.conns i)) _ _
                (λ _.
                  let (t, returned, g) =
                    Makes-dispatch appcall keeps i answered (λ p. ends (sym answered-state ∙ p)) in
                  (
                    t,
                    returned,
                    record {
                      is_allowed =
                          ap (λ b. allowed b (state_of (t.conns i))) (sym answered-state)
                          ∙ g.is_allowed;
                    },
                  ))
                (λ _. Makes-dispatch appcall keeps i _ ends)))
    where
      a : ℕ
      a = state_of (s.conns i)

      P : Option (Stack A) → Type 0
      P = Makes appcall keeps i a

      datalen : ℕ
      datalen = sub16 (sub16 s.len (header_len s.buf)) 20

      same : Goes i a s
      same = record { is_allowed = allowed_same a }

      answered : Stack A
      answered = record (update i acknowledged (record s { conn = i; flags = 0; len = datalen })) {
        flags = uip_ackdata;
      }

      answered-state : state_of (answered.conns i) ≡ a
      answered-state =
          ap state_of (if_self i (acknowledged (s.conns i)) (s.conns i))
          ∙ ap (λ n. n % 16) (acknowledged-tcpstateflags (s.conns i))

  -- For a segment whose header length is a byte, and where in state SYN_SENT no option that stands
  -- before the end of the option area has a length byte that carries the index past 255, the code
  -- from label found on returns, and takes the connection from its state only to one that the
  -- state diagram of uIP allows from there: the same, CLOSED, or a successor; for an application
  -- that leaves the connections alone.
  pub found_conn-moves :
      (s : Stack A)
      → s.buf at_tcpoffset < 256
      → (state_of (s.conns i) ≡ uip_syn_sent → NoWrap s.buf (options_end s.buf))
      → (s' : Stack A) × (found_conn appcall i s ≡ some s')
        × (allowed (state_of (s.conns i)) (state_of (s'.conns i)) ≡ true)
  found_conn-moves s small h =
      let (s', returned, g) = Makes-found_conn s (λ p. parse_mss_ends s.buf small (h p)) in
      (s', returned, g.is_allowed)
