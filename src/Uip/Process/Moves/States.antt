-- ===== src/Uip/Process/Moves/States.antt =====
-- The moves that the switch on the TCP state and label `found` of `uip_process` make.
use fx_ip.Base.{if◌then◌else◌, ltb, not, refl, true, ℕ, ◌&&◌, ◌+◌, ◌==◌, ◌||◌, ◌∙◌, ◌≡◌}
use fx_ip.Uip.Config.{
  at_flags, tcp_fin, tcp_urg, uip_ackdata, uip_close, uip_closed, uip_closing, uip_established,
  uip_fin_wait_1, uip_fin_wait_2, uip_last_ack, uip_newdata, uip_stopped, uip_syn_rcvd,
  uip_time_wait,
}
use fx_ip.Uip.Input.{set_state, uip_add_rcv_nxt}
use fx_ip.Uip.Process.Moves.{
  Goes, Goes-appsend, Goes-conns, Goes-received, Goes-set, Goes-update, allowed, allowed_closed,
  if-holds,
}
use fx_ip.Uip.Process.Timer.{KeepsConns}
use fx_ip.Uip.Send.Keeps.{conns-drop_packet, conns-tcp_send_ack, conns-tcp_send_finack, if-same}
use fx_ip.Uip.State.{Conn, Stack, has_bit, set_bit, update}
use fx_ip.Uip.States.{
  call_with, in_closing, in_established, in_fin_wait_1, in_fin_wait_2, in_last_ack, in_syn_rcvd,
  skip_urgent, take_data, window_mss,
}

module _ {A : Type 0} (appcall : Stack A → Stack A) (keeps : KeepsConns appcall) (i : ℕ) where
  pub Goes-in_syn_rcvd :
      (s : Stack A) → Goes i uip_syn_rcvd s → Goes i uip_syn_rcvd (in_syn_rcvd appcall i s)
  unfolding in_syn_rcvd allowed
  Goes-in_syn_rcvd s g =
      if-holds (Goes i uip_syn_rcvd) (has_bit s.flags uip_ackdata) _ _
        (λ _.
          Goes-appsend i uip_syn_rcvd _
            (Goes-conns i uip_syn_rcvd
              (if ltb 0 s.len then uip_add_rcv_nxt i s.len joined else joined) (keeps _)
              (Goes-received i uip_syn_rcvd (ltb 0 s.len) s.len joined (
                Goes-set i uip_syn_rcvd uip_established
                  (λ c. record c { tcpstateflags = uip_established; len = 0 }) s (λ c. refl) refl)))
            refl)
        (λ _. Goes-conns i uip_syn_rcvd s (conns-drop_packet s) g)
    where
      joined : Stack A
      joined = update i (λ c. record c { tcpstateflags = uip_established; len = 0 }) s

  pub Goes-in_last_ack :
      (s : Stack A) → Goes i uip_last_ack s → Goes i uip_last_ack (in_last_ack appcall i s)
  unfolding in_last_ack
  Goes-in_last_ack s g =
      if-holds (Goes i uip_last_ack) (has_bit s.flags uip_ackdata) _ _
        (λ _. Goes-conns i uip_last_ack (set_state i uip_closed s) (conns-drop_packet _ ∙ keeps _) (
          Goes-set i uip_last_ack uip_closed (λ c. record c { tcpstateflags = uip_closed }) s
            (λ c. refl) (allowed_closed uip_last_ack)))
        (λ _. Goes-conns i uip_last_ack s (conns-drop_packet s) g)

  pub Goes-in_closing :
      (s : Stack A) → Goes i uip_closing s → Goes i uip_closing (in_closing appcall i s)
  unfolding in_closing allowed
  Goes-in_closing s g =
      if-holds (Goes i uip_closing) (has_bit s.flags uip_ackdata) _ _
        (λ _.
          Goes-conns i uip_closing
            (update i (λ c. record c { tcpstateflags = uip_time_wait; timer = 0 }) s)
            (conns-drop_packet _)
            (Goes-set i uip_closing uip_time_wait
              (λ c. record c { tcpstateflags = uip_time_wait; timer = 0 }) s (λ c. refl) refl))
        (λ _. Goes-conns i uip_closing s (conns-drop_packet s) g)

  pub Goes-in_fin_wait_2 :
      (s : Stack A) → Goes i uip_fin_wait_2 s → Goes i uip_fin_wait_2 (in_fin_wait_2 appcall i s)
  unfolding in_fin_wait_2 allowed
  Goes-in_fin_wait_2 s g =
      if-holds (Goes i uip_fin_wait_2) (has_bit (taken.buf at_flags) tcp_fin) _ _
        (λ _.
          Goes-conns i uip_fin_wait_2 (uip_add_rcv_nxt i 1 closing)
            (conns-tcp_send_ack i _ ∙ keeps _)
            (Goes-received i uip_fin_wait_2 true 1 closing (
              Goes-set i uip_fin_wait_2 uip_time_wait
                (λ c. record c { tcpstateflags = uip_time_wait; timer = 0 }) taken (λ c. refl)
                refl)))
        (λ _.
          if-holds (Goes i uip_fin_wait_2) (ltb 0 s.len) _ _
            (λ _. Goes-conns i uip_fin_wait_2 taken (conns-tcp_send_ack i _) Goes-taken)
            (λ _. Goes-conns i uip_fin_wait_2 taken (conns-drop_packet _) Goes-taken))
    where
      taken : Stack A
      taken = if ltb 0 s.len then uip_add_rcv_nxt i s.len s else s

      Goes-taken : Goes i uip_fin_wait_2 taken
      Goes-taken = Goes-received i uip_fin_wait_2 (ltb 0 s.len) s.len s g

      closing : Stack A
      closing = update i (λ c. record c { tcpstateflags = uip_time_wait; timer = 0 }) taken

  pub Goes-in_fin_wait_1 :
      (s : Stack A) → Goes i uip_fin_wait_1 s → Goes i uip_fin_wait_1 (in_fin_wait_1 appcall i s)
  unfolding in_fin_wait_1 allowed
  Goes-in_fin_wait_1 s g =
      if-holds (Goes i uip_fin_wait_1) (has_bit (taken.buf at_flags) tcp_fin) _ _
        (λ _.
          Goes-conns i uip_fin_wait_1 (uip_add_rcv_nxt i 1 closing)
            (conns-tcp_send_ack i _ ∙ keeps _)
            (Goes-received i uip_fin_wait_1 true 1 closing (
              if-holds (Goes i uip_fin_wait_1) (has_bit s.flags uip_ackdata) _ _
                (λ _.
                  Goes-set i uip_fin_wait_1 uip_time_wait
                    (λ c. record c { tcpstateflags = uip_time_wait; timer = 0; len = 0 }) taken
                    (λ c. refl) refl)
                (λ _.
                  Goes-set i uip_fin_wait_1 uip_closing
                    (λ c. record c { tcpstateflags = uip_closing }) taken (λ c. refl) refl))))
        (λ _.
          if-holds (Goes i uip_fin_wait_1) (has_bit s.flags uip_ackdata) _ _
            (λ _.
              Goes-conns i uip_fin_wait_1
                (update i (λ c. record c { tcpstateflags = uip_fin_wait_2; len = 0 }) taken)
                (conns-drop_packet _)
                (Goes-set i uip_fin_wait_1 uip_fin_wait_2
                  (λ c. record c { tcpstateflags = uip_fin_wait_2; len = 0 }) taken (λ c. refl)
                  refl))
            (λ _.
              if-holds (Goes i uip_fin_wait_1) (ltb 0 s.len) _ _
                (λ _. Goes-conns i uip_fin_wait_1 taken (conns-tcp_send_ack i _) Goes-taken)
                (λ _. Goes-conns i uip_fin_wait_1 taken (conns-drop_packet _) Goes-taken)))
    where
      taken : Stack A
      taken = if ltb 0 s.len then uip_add_rcv_nxt i s.len s else s

      Goes-taken : Goes i uip_fin_wait_1 taken
      Goes-taken = Goes-received i uip_fin_wait_1 (ltb 0 s.len) s.len s g

      closing : Stack A
      closing =
          if has_bit s.flags uip_ackdata
          then update i (λ c. record c { tcpstateflags = uip_time_wait; timer = 0; len = 0 }) taken
          else set_state i uip_closing taken

  Goes-take_data :
      (s : Stack A) → Goes i uip_established s → Goes i uip_established (take_data appcall i s)
  unfolding take_data
  Goes-take_data s g =
      Goes-update i uip_established (λ c. record c { mss = window_mss appcall s.buf c }) _
        (λ c. refl)
        (if-holds (Goes i uip_established)
          (ltb 0 rest.len && not (has_bit (s.conns i).tcpstateflags uip_stopped)) _ _
          (λ _.
            Goes-received i uip_established true rest.len
              (record rest { flags = set_bit rest.flags uip_newdata })
              (Goes-conns i uip_established s rest-conns g))
          (λ _. Goes-conns i uip_established s rest-conns g))
    where
      rest : Stack A
      rest = skip_urgent appcall s

      rest-conns : rest.conns ≡ s.conns
      rest-conns =
          if-same (λ (t : Stack A). t.conns) (has_bit (s.buf at_flags) tcp_urg) _ _ _ refl refl

  pub Goes-in_established :
      (s : Stack A) → Goes i uip_established s → Goes i uip_established (in_established appcall i s)
  unfolding in_established allowed
  Goes-in_established s g =
      if-holds (Goes i uip_established)
        (has_bit (s.buf at_flags) tcp_fin && not (has_bit (s.conns i).tcpstateflags uip_stopped)) _
        _
        (λ _.
          if-holds (Goes i uip_established) (not ((s.conns i).len == 0)) _ _
            (λ _. Goes-conns i uip_established s (conns-drop_packet s) g)
            (λ _.
              Goes-conns i uip_established (update i last called) (conns-tcp_send_finack i _)
                (Goes-set i uip_established uip_last_ack last called (λ c. refl) refl)))
        (λ _.
          if-holds (Goes i uip_established)
            (has_bit (take_data appcall i s).flags uip_newdata
              || has_bit (take_data appcall i s).flags uip_ackdata)
            _ _
            (λ _.
              Goes-appsend i uip_established _
                (Goes-conns i uip_established (take_data appcall i s) (keeps _)
                  (Goes-take_data s g))
                refl)
            (λ _.
              Goes-conns i uip_established (take_data appcall i s) (conns-drop_packet _)
                (Goes-take_data s g)))
    where
      last : Conn → Conn
      last c = record c { len = 1; tcpstateflags = uip_last_ack; nrtx = 0 }

      flags : ℕ
      flags =
          if ltb 0 s.len
          then set_bit (set_bit s.flags uip_close) uip_newdata
          else set_bit s.flags uip_close

      called : Stack A
      called = call_with appcall flags (uip_add_rcv_nxt i (1 + s.len) s)
