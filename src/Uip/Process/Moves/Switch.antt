-- ===== src/Uip/Process/Moves/Switch.antt =====
-- The switch on the TCP state as a whole: it returns, and makes a move that is allowed.
use mathlib.Core.Option
use fx_ip.Base.{
  Option, Option-cases, ap, arith, inl, inr, none, refl, some, true, ℕ, ◌&&◌, ◌+◌, ◌==◌, ◌∙◌, ◌≡◌,
  ◌≢◌,
}
use fx_ip.Uip.Process.Moves.{
  Goes, Goes-appsend, Goes-conns, Goes-set, allowed, allowed_closed, allowed_same, conns-reset,
  if-holds,
}
use fx_ip.Uip.Process.Timer.{KeepsConns}
use fx_ip.Uip.Config.{
  tcp_ack, tcp_syn, uip_abort, uip_ackdata, uip_closed, uip_closing, uip_connected, uip_established,
  uip_fin_wait_1, uip_fin_wait_2, uip_last_ack, uip_newdata, uip_syn_rcvd, uip_syn_sent,
  uip_time_wait,
}
use fx_ip.Uip.Input.{control, reset, set_state, state_of}
use fx_ip.Uip.Options.{parse_mss}
use fx_ip.Uip.Process.Moves.States.{
  Goes-in_closing, Goes-in_established, Goes-in_fin_wait_1, Goes-in_fin_wait_2, Goes-in_last_ack,
  Goes-in_syn_rcvd,
}
use fx_ip.Uip.Send.{appsend, drop_packet}
use fx_ip.Uip.Send.Keeps.{conns-drop_packet, conns-tcp_send_ack}
use fx_ip.Uip.State.{Stack, has_bit, update}
use fx_ip.Uip.States.{call_with, connect_done, dispatch, in_syn_sent}

module _ {A : Type 0} (appcall : Stack A → Stack A) (keeps : KeepsConns appcall) (i : ℕ) where
  Goes-close : (a k : ℕ) (s : Stack A) → Goes i a s → Goes i a (set_state k uip_closed s)
  Goes-close a k s g = record {
    is_allowed =
        if-holds (λ c. allowed a (state_of c) ≡ true) (i == k) _ _ (λ _. allowed_closed a)
          (λ _. g.is_allowed);
  }

  -- The call returns, and the connection has gone from state `a` by a move that is allowed.
  abbrev pub Makes : ℕ → Option (Stack A) → Type 0
  Makes a o = (s' : Stack A) × (o ≡ some s') × Goes i a s'

  Makes-in_syn_sent :
      (s : Stack A)
      → Goes i uip_syn_sent s
      → parse_mss s.buf ≢ none
      → Makes uip_syn_sent (in_syn_sent appcall i s)
  unfolding in_syn_sent allowed
  Makes-in_syn_sent s g ends =
      if-holds (Makes uip_syn_sent)
        (has_bit s.flags uip_ackdata && control s.buf == tcp_syn + tcp_ack) _ _
        (λ _. elim (Option-cases (parse_mss s.buf)) [
          | inl e ↦ absurd (ends e)
          | inr (v, e) ↦ (
            appsend i (called v),
            ap (Option.map (λ v. appsend i (called v))) e,
            Goes-appsend i uip_syn_sent (called v)
                (Goes-conns i uip_syn_sent (update i (connect_done appcall s.buf v) s) (keeps _) (
                  Goes-set i uip_syn_sent uip_established (connect_done appcall s.buf v) s
                    (λ c. refl) refl))
                refl,
          )
        ])
        (λ _. (
          reset (set_state failed.conn uip_closed failed),
          refl,
          Goes-conns i uip_syn_sent (set_state failed.conn uip_closed failed) (conns-reset i _) (
              Goes-close uip_syn_sent failed.conn failed (Goes-conns i uip_syn_sent s (keeps _) g)),
        ))
    where
      called : Option ℕ → Stack A
      called v =
          call_with appcall (uip_connected + uip_newdata)
            (record (update i (connect_done appcall s.buf v) s) { len = 0; slen = 0 })

      failed : Stack A
      failed = call_with appcall uip_abort s

  -- a state of the switch
  Makes-in :
      (k : ℕ) (o : Option (Stack A)) (s : Stack A)
      → (state_of (s.conns i) == k) ≡ true
      → (Goes i k s → Makes k o)
      → Makes (state_of (s.conns i)) o
  Makes-in k o s e h =
      let same : state_of (s.conns i) ≡ k = ground arith in
      let (t, returned, g) = h (record { is_allowed = ap (allowed k) same ∙ allowed_same k }) in
      (
        t,
        returned,
        record { is_allowed = ap (λ a. allowed a (state_of (t.conns i))) same ∙ g.is_allowed },
      )

  -- a state of the switch whose code has no loop
  Makes-some :
      (k : ℕ) (t s : Stack A)
      → (state_of (s.conns i) == k) ≡ true
      → (Goes i k s → Goes i k t)
      → Makes (state_of (s.conns i)) (some t)
  Makes-some k t s e h = Makes-in k (some t) s e (λ g. (t, refl, h g))

  pub Makes-dispatch :
      (s : Stack A)
      → (state_of (s.conns i) ≡ uip_syn_sent → parse_mss s.buf ≢ none)
      → Makes (state_of (s.conns i)) (dispatch appcall i s)
  unfolding dispatch
  Makes-dispatch s ends =
      if-holds P (state_of (s.conns i) == uip_syn_rcvd) _ _
        (λ e. Makes-some uip_syn_rcvd _ s e (Goes-in_syn_rcvd appcall keeps i s))
        (λ _.
          if-holds P (state_of (s.conns i) == uip_syn_sent) _ _
            (λ e. Makes-in uip_syn_sent _ s e (λ g. Makes-in_syn_sent s g (ends (ground arith))))
            (λ _.
              if-holds P (state_of (s.conns i) == uip_established) _ _
                (λ e. Makes-some uip_established _ s e (Goes-in_established appcall keeps i s))
                (λ _.
                  if-holds P (state_of (s.conns i) == uip_last_ack) _ _
                    (λ e. Makes-some uip_last_ack _ s e (Goes-in_last_ack appcall keeps i s))
                    (λ _.
                      if-holds P (state_of (s.conns i) == uip_fin_wait_1) _ _
                        (λ e.
                          Makes-some uip_fin_wait_1 _ s e (Goes-in_fin_wait_1 appcall keeps i s))
                        (λ _.
                          if-holds P (state_of (s.conns i) == uip_fin_wait_2) _ _
                            (λ e.
                              Makes-some uip_fin_wait_2 _ s e
                                (Goes-in_fin_wait_2 appcall keeps i s))
                            (λ _.
                              if-holds P (state_of (s.conns i) == uip_time_wait) _ _
                                (λ e.
                                  Makes-some uip_time_wait _ s e
                                    (Goes-conns i uip_time_wait s (conns-tcp_send_ack i s)))
                                (λ _.
                                  if-holds P (state_of (s.conns i) == uip_closing) _ _
                                    (λ e.
                                      Makes-some uip_closing _ s e
                                        (Goes-in_closing appcall keeps i s))
                                    (λ _. (
                                      drop_packet s,
                                      refl,
                                      Goes-conns i (state_of (s.conns i)) s (conns-drop_packet s)
                                          (record {
                                            is_allowed = allowed_same (state_of (s.conns i));
                                          }),
                                    )))))))))
    where
      P : Option (Stack A) → Type 0
      P = Makes (state_of (s.conns i))
