-- ===== src/Uip/Process/Moves.antt =====
-- The state machine of a connection: which moves a segment can cause.
pub mod Segment
pub mod States
pub mod Switch
use fx_ip.Base.{
  Bool, ap, arith, false, if◌then◌else◌, ltb, min, not, refl, true, ℕ, ◌%◌, ◌&&◌, ◌==◌, ◌^◌, ◌||◌,
  ◌∙◌, ◌≡◌,
}
use fx_ip.Uip.Config.{
  at_flags, tcp_rst, uip_abort, uip_ackdata, uip_close, uip_closed, uip_closing, uip_established,
  uip_fin_wait_1, uip_fin_wait_2, uip_last_ack, uip_syn_rcvd, uip_syn_sent, uip_time_wait,
}
use fx_ip.Uip.Input.{reset, state_of, uip_add_rcv_nxt}
use fx_ip.Uip.Send.{appsend, limit_slen}
use fx_ip.Uip.Send.Keeps.{
  conns-apprexmit, conns-drop_packet, conns-tcp_send_noconn, conns-tcp_send_nodata, if-same,
  if_self,
}
use fx_ip.Uip.Seq.{uip_add32}
use fx_ip.Uip.State.{Conn, Stack, has_bit, update}

-- the moves of the TCP state diagram that uIP makes; any state can be left for CLOSED, by a reset
unfoldable pub allowed : ℕ → ℕ → Bool
allowed a b =
    a == b
    || b == uip_closed
    || ((a == uip_syn_rcvd || a == uip_syn_sent) && (b == uip_established || b == uip_fin_wait_1))
    || (a == uip_established && (b == uip_last_ack || b == uip_fin_wait_1))
    || (a == uip_fin_wait_1 && (b == uip_fin_wait_2 || b == uip_closing || b == uip_time_wait))
    || ((a == uip_fin_wait_2 || a == uip_closing) && b == uip_time_wait)

pub allowed_closed : (a : ℕ) → allowed a uip_closed ≡ true
unfolding allowed
allowed_closed a = ground arith

pub allowed_same : (a : ℕ) → allowed a a ≡ true
unfolding allowed
allowed_same a = ground arith

pub if-holds {ℓ κ} :
    {S : Type ℓ} (P : S → Type κ) (b : Bool) (x y : S)
    → (b ≡ true → P x)
    → (b ≡ false → P y)
    → P (if b then x else y)
if-holds P true x y h k = h refl
if-holds P false x y h k = k refl

module _ {A : Type 0} (i : ℕ) where
  -- The connection went from state `a` by a move that is allowed.
  pub record Goes (a : ℕ) (s : Stack A) : Type 0 where
    pub is_allowed : allowed a (state_of (s.conns i)) ≡ true

  pub Goes-conns : (a : ℕ) {t : Stack A} (u : Stack A) → t.conns ≡ u.conns → Goes a u → Goes a t
  Goes-conns a u e g = record {
    is_allowed = ap (λ (c : ℕ → Conn). allowed a (state_of (c i))) e ∙ g.is_allowed;
  }

  pub Goes-update :
      (a : ℕ) (f : Conn → Conn) (s : Stack A)
      → ((c : Conn) → (f c).tcpstateflags ≡ c.tcpstateflags)
      → Goes a s
      → Goes a (update i f s)
  Goes-update a f s h g = record {
    is_allowed =
        ap (λ (c : Conn). allowed a (state_of c)) (if_self i (f (s.conns i)) (s.conns i))
        ∙ ap (λ n. allowed a (n % 16)) (h (s.conns i))
        ∙ g.is_allowed;
  }

  pub Goes-set :
      (a v : ℕ) (f : Conn → Conn) (s : Stack A)
      → ((c : Conn) → (f c).tcpstateflags ≡ v)
      → allowed a (v % 16) ≡ true
      → Goes a (update i f s)
  Goes-set a v f s h g = record {
    is_allowed =
        ap (λ (c : Conn). allowed a (state_of c)) (if_self i (f (s.conns i)) (s.conns i))
        ∙ ap (λ n. allowed a (n % 16)) (h (s.conns i))
        ∙ g;
  }

  pub Goes-received :
      (a : ℕ) (b : Bool) (n : ℕ) (s : Stack A)
      → Goes a s
      → Goes a (if b then uip_add_rcv_nxt i n s else s)
  Goes-received a b n s g =
      if-holds (Goes a) b _ _
        (λ _.
          Goes-update a (λ c. record c { rcv_nxt = uip_add32 c.rcv_nxt (n % 2 ^ 16) }) s (λ c. refl)
            g)
        (λ _. g)

  pub Goes-limit_slen : (a : ℕ) (s : Stack A) → Goes a s → Goes a (limit_slen i s)
  unfolding limit_slen
  Goes-limit_slen a s g =
      if-holds (Goes a) (not (ltb 0 s.slen)) _ _ (λ _. g)
        (λ _.
          if-holds (Goes a) ((acked.conns i).len == 0) _ _
            (λ _.
              Goes-update a (λ c. record c { len = n }) (record acked { slen = n }) (λ c. refl)
                (Goes-conns a acked refl Goes-acked))
            (λ _. Goes-conns a acked refl Goes-acked))
    where
      n : ℕ
      n = min s.slen (s.conns i).mss

      acked : Stack A
      acked = if has_bit s.flags uip_ackdata then update i (λ c. record c { len = 0 }) s else s

      Goes-acked : Goes a acked
      Goes-acked =
          if-holds (Goes a) (has_bit s.flags uip_ackdata) _ _
            (λ _. Goes-update a (λ c. record c { len = 0 }) s (λ c. refl) g) (λ _. g)

  -- what the answer of the application makes of a connection
  pub Goes-appsend :
      (a : ℕ) (s : Stack A) → Goes a s → allowed a uip_fin_wait_1 ≡ true → Goes a (appsend i s)
  unfolding appsend
  Goes-appsend a s g h =
      if-holds (Goes a) (has_bit s.flags uip_abort) _ _
        (λ _.
          Goes-conns a (update i (λ c. record c { tcpstateflags = uip_closed }) s)
            (conns-tcp_send_nodata i _)
            (Goes-set a uip_closed (λ c. record c { tcpstateflags = uip_closed }) s (λ c. refl)
              (allowed_closed a)))
        (λ _.
          if-holds (Goes a) (has_bit s.flags uip_close) _ _
            (λ _.
              Goes-conns a
                (update i (λ c. record c { len = 1; tcpstateflags = uip_fin_wait_1; nrtx = 0 }) s)
                (conns-tcp_send_nodata i _)
                (Goes-set a uip_fin_wait_1
                  (λ c. record c { len = 1; tcpstateflags = uip_fin_wait_1; nrtx = 0 }) s
                  (λ c. refl) h))
            (λ _.
              Goes-conns a (update i (λ c. record c { nrtx = 0 }) (limit_slen i s))
                (conns-apprexmit i _)
                (Goes-update a (λ c. record c { nrtx = 0 }) (limit_slen i s) (λ c. refl)
                  (Goes-limit_slen a s g))))

  pub conns-reset : (s : Stack A) → (reset s).conns ≡ s.conns
  unfolding reset
  conns-reset s =
      if-same conns_of (has_bit (s.buf at_flags) tcp_rst) _ _ _ (conns-drop_packet s)
        (conns-tcp_send_noconn _)
    where
      conns_of : Stack A → ℕ → Conn
      conns_of t = t.conns
