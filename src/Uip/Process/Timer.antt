-- ===== src/Uip/Process/Timer.antt =====
-- The periodic timer of a connection: backoff, and the end of a connection whose peer is silent.
use fx_ip.Base.{
  Bool-cases, ap, arith, if◌then◌else◌, inl, inr, ltb, not, refl, suc, true, zero, ℕ, ◌%◌, ◌*◌, ◌+◌,
  ◌-◌, ◌<◌, ◌==◌, ◌^◌, ◌||◌, ◌∙◌, ◌≡◌, ◌≢◌, ◌≤◌, ◌⊎◌,
}
use fx_ip.Uip.Config.{
  uip_closed, uip_established, uip_fin_wait_2, uip_maxrtx, uip_rto, uip_syn_rcvd, uip_syn_sent,
  uip_time_wait,
}
use fx_ip.Uip.Input.{state_of}
use fx_ip.Uip.Process.{backed_off, gives_up, outstanding_timer, retransmit, timer_input}
use fx_ip.Uip.Send.Keeps.{
  conns-apprexmit, conns-drop_packet, conns-tcp_send_finack, conns-tcp_send_nodata,
  conns-tcp_send_syn, conns-tcp_send_synack, if-false, if-match, if-same, if_self, if-true,
}
use fx_ip.Uip.State.{Conn, Stack, update}

-- The application leaves the connections to the stack, as `irc_appcall` does.
abbrev pub KeepsConns : {A : Type 0} → (Stack A → Stack A) → Type 0
KeepsConns appcall = (s : _) → (appcall s).conns ≡ s.conns

-- `timer--`
abbrev decremented : Conn → Conn
decremented c = record c { timer = (c.timer + 2 ^ 8 - 1) % 2 ^ 8 }

-- what one tick does to a connection with data outstanding
tick_conn : Conn → Conn
tick_conn c =
    if not (c.timer == 0)
    then decremented c
    else if gives_up (decremented c)
    then record (decremented c) { tcpstateflags = uip_closed }
    else backed_off (decremented c)

module _ {A : Type 0} (appcall : Stack A → Stack A) (keeps : KeepsConns appcall) (i : ℕ) where
  conns-retransmit : (s : Stack A) → (retransmit appcall i s).conns ≡ s.conns
  unfolding retransmit
  conns-retransmit s =
      if-same conns_of (state_of (s.conns i) == uip_syn_rcvd) _ _ s.conns
        (conns-tcp_send_synack i s)
        (if-same conns_of (state_of (s.conns i) == uip_syn_sent) _ _ s.conns
          (conns-tcp_send_syn i _)
          (if-same conns_of (state_of (s.conns i) == uip_established) _ _ s.conns
            (conns-apprexmit i _ ∙ keeps _)
            (if-same conns_of _ _ _ s.conns (conns-tcp_send_finack i s) (conns-drop_packet s))))
    where
      conns_of : Stack A → ℕ → Conn
      conns_of t = t.conns

  conn-outstanding_timer :
      (s : Stack A) → (outstanding_timer appcall i s).conns i ≡ tick_conn (s.conns i)
  unfolding outstanding_timer tick_conn
  conn-outstanding_timer s =
      if-match conn_of (not ((s.conns i).timer == 0)) _ _ _ _ _ refl
        (ap (λ t. t i) (conns-drop_packet _) ∙ self)
        (if-match conn_of (gives_up ((update i decremented s).conns i)) _ _ _ _ _ (ap gives_up self)
          (ap (λ t. t i) (conns-tcp_send_nodata i _ ∙ keeps _)
            ∙ if_self i _ _
            ∙ ap (λ c. let r : Conn = record c { tcpstateflags = uip_closed } in r) self)
          (ap (λ t. t i) (conns-retransmit _) ∙ if_self i _ _ ∙ ap backed_off self))
    where
      conn_of : Stack A → Conn
      conn_of t = t.conns i

      self : (update i decremented s).conns i ≡ decremented (s.conns i)
      self = if_self i (decremented (s.conns i)) (s.conns i)

-- A connection that waits for an acknowledgement: not closed, and not in one of the two states that
-- have their own timeout.
pub record Waits (c : Conn) : Type 0 where
  pub outstanding : c.len ≢ 0
  pub open_state : c.tcpstateflags ≢ uip_closed
  pub not_time_wait : c.tcpstateflags ≢ uip_time_wait
  pub not_fin_wait_2 : c.tcpstateflags ≢ uip_fin_wait_2
  pub retries : c.nrtx ≤ uip_maxrtx
  pub timer_range : c.timer < 256

-- how many ticks the connection can still wait
abbrev pub patience : Conn → ℕ
patience c = (uip_maxrtx - c.nrtx) * 49 + c.timer

backoff_range : (n : ℕ) → uip_rto * 2 ^ (if ltb 4 n then 4 else n) ≤ 48
backoff_range zero = omega arith
backoff_range (suc zero) = omega arith
backoff_range (suc (suc zero)) = omega arith
backoff_range (suc (suc (suc zero))) = omega arith
backoff_range (suc (suc (suc (suc zero)))) = omega arith
backoff_range (suc (suc (suc (suc (suc n))))) =
    let e : ltb 4 (suc (suc (suc (suc (suc n))))) ≡ true = ground arith in rw e (omega arith)

tick_conn-Waits :
    (c : Conn)
    → Waits c
    → ((tick_conn c).tcpstateflags ≡ uip_closed)
      ⊎ (Waits (tick_conn c) × (patience (tick_conn c) < patience c))
unfolding tick_conn
tick_conn-Waits c w = elim (Bool-cases (c.timer == 0)) [
  | inr e ↦ rw e (
      inr (
        record {
          outstanding = w.outstanding;
          open_state = w.open_state;
          not_time_wait = w.not_time_wait;
          not_fin_wait_2 = w.not_fin_wait_2;
          retries = w.retries;
          timer_range = omega arith;
        },
        ground (arith, w.timer_range),
      ))
  | inl e ↦ elim (Bool-cases (gives_up (decremented c))) [
    | inl g ↦ rw (e, g) (inl refl)
    | inr g ↦
        rw (e, g)
          (inr (
            record {
              outstanding = w.outstanding;
              open_state = w.open_state;
              not_time_wait = w.not_time_wait;
              not_fin_wait_2 = w.not_fin_wait_2;
              retries = ground arith;
              timer_range = omega (arith, backoff_range c.nrtx);
            },
            ground (arith, backoff_range c.nrtx),
          ))
  ]
]

-- `n` ticks of the timer for connection `i`, while nothing arrives for it
pub ticks : {A : Type 0} → (Stack A → Stack A) → ℕ → ℕ → Stack A → Stack A
ticks appcall i zero s = s
ticks appcall i (suc n) s = ticks appcall i n (timer_input appcall i s)

module _ {A : Type 0} (appcall : Stack A → Stack A) (keeps : KeepsConns appcall) (i : ℕ) where
  timer_input-waiting :
      (s : Stack A) → Waits (s.conns i) → (timer_input appcall i s).conns i ≡ tick_conn (s.conns i)
  unfolding timer_input
  timer_input-waiting s w =
      if-false conn_of
        ((s.conns i).tcpstateflags == uip_time_wait || (s.conns i).tcpstateflags == uip_fin_wait_2)
        _ _ (ground (arith, w.not_time_wait, w.not_fin_wait_2))
      ∙ if-false conn_of ((s.conns i).tcpstateflags == uip_closed) _ _
          (ground (arith, w.open_state))
      ∙ if-true conn_of (not ((s.conns i).len == 0)) _ _ (ground (arith, w.outstanding))
      ∙ conn-outstanding_timer appcall keeps i _
    where
      conn_of : Stack A → Conn
      conn_of t = t.conns i

  timer_input-closed :
      (s : Stack A)
      → (s.conns i).tcpstateflags ≡ uip_closed
      → ((timer_input appcall i s).conns i).tcpstateflags ≡ uip_closed
  unfolding timer_input
  timer_input-closed s e =
      if-false state
        ((s.conns i).tcpstateflags == uip_time_wait || (s.conns i).tcpstateflags == uip_fin_wait_2)
        _ _ (rw e)
      ∙ if-true state ((s.conns i).tcpstateflags == uip_closed) _ _ (rw e)
      ∙ ap (λ (c : ℕ → Conn). (c i).tcpstateflags) (conns-drop_packet _)
      ∙ e
    where
      state : Stack A → ℕ
      state t = (t.conns i).tcpstateflags

  ticks-closed :
      (n : ℕ) (s : Stack A)
      → (s.conns i).tcpstateflags ≡ uip_closed
      → ((ticks appcall i n s).conns i).tcpstateflags ≡ uip_closed
  unfolding ticks
  ticks-closed zero s e = e
  ticks-closed (suc n) s e = ticks-closed n (timer_input appcall i s) (timer_input-closed s e)

  -- A connection with data outstanding, in a state other than TIME_WAIT and FIN_WAIT_2, whose peer
  -- stays silent, with at most UIP_MAXRTX retries and a timer below 256, is closed after any
  -- number of ticks above its timer plus 49 for each retry left, for an application that leaves
  -- the connections alone.
  pub ticks_close :
      (n : ℕ) (s : Stack A)
      → Waits (s.conns i)
      → patience (s.conns i) < n
      → ((ticks appcall i n s).conns i).tcpstateflags ≡ uip_closed
  unfolding ticks
  ticks_close zero s w h = absurd (omega arith)
  ticks_close (suc n) s w h =
      let same = timer_input-waiting s w in
      elim (tick_conn-Waits (s.conns i) w) [
        | inl e ↦
            ticks-closed n (timer_input appcall i s) (ap (λ (c : Conn). c.tcpstateflags) same ∙ e)
        | inr (w', less) ↦
            ticks_close n (timer_input appcall i s) (rw same w') (rw same (omega arith))
      ]
