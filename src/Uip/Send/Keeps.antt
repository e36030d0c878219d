-- ===== src/Uip/Send/Keeps.antt =====
-- Sending changes no connection.
use fx_ip.Base.{
  Bool, [], arith, false, if◌then◌else◌, ltb, refl, true, ℕ, ◌&&◌, ◌+◌, ◌==◌, ◌∷◌, ◌≡◌,
}
use fx_ip.Uip.Config.{at_flags, tcp_ack, tcp_fin, uip_newdata}
use fx_ip.Uip.Send.{
  apprexmit, drop_packet, ip_send_nolen, send, tcp_send, tcp_send_ack, tcp_send_finack,
  tcp_send_noconn, tcp_send_nodata, tcp_send_noopts, tcp_send_syn, tcp_send_synack,
}
use fx_ip.Uip.State.{Stack, fill, has_bit}

-- a field that is the same in both branches
pub if-same {ℓ κ} :
    {S : Type ℓ} {F : Type κ} (f : S → F) (b : Bool) (x y : S) (v : F)
    → f x ≡ v
    → f y ≡ v
    → f (if b then x else y) ≡ v
if-same f true x y v p q = p
if-same f false x y v p q = q

-- a field that differs with the branch
pub if-match {ℓ κ} :
    {S : Type ℓ} {F : Type κ} (f : S → F) (b b' : Bool) (x y : S) (u v : F)
    → b ≡ b'
    → f x ≡ u
    → f y ≡ v
    → f (if b then x else y) ≡ (if b' then u else v)
if-match f b true x y u v e p q = rw e p
if-match f b false x y u v e p q = rw e q

pub if-true {ℓ κ} :
    {S : Type ℓ} {F : Type κ} (f : S → F) (b : Bool) (x y : S)
    → b ≡ true
    → f (if b then x else y) ≡ f x
if-true f b x y e = rw e

pub if-false {ℓ κ} :
    {S : Type ℓ} {F : Type κ} (f : S → F) (b : Bool) (x y : S)
    → b ≡ false
    → f (if b then x else y) ≡ f y
if-false f b x y e = rw e

pub if_self {ℓ} : {S : Type ℓ} (i : ℕ) (x y : S) → (if i == i then x else y) ≡ x
if_self i x y = let e : (i == i) ≡ true = ground arith in rw e

module _ {A : Type 0} where
  pub conns-tcp_send_noconn : (s : Stack A) → (tcp_send_noconn s).conns ≡ s.conns
  unfolding tcp_send_noconn ip_send_nolen send
  conns-tcp_send_noconn s = refl

  pub conns-tcp_send_noopts : (i : ℕ) (s : Stack A) → (tcp_send_noopts i s).conns ≡ s.conns
  unfolding tcp_send_noopts tcp_send tcp_send_noconn ip_send_nolen send
  conns-tcp_send_noopts i s = refl

  pub conns-tcp_send_nodata : (i : ℕ) (s : Stack A) → (tcp_send_nodata i s).conns ≡ s.conns
  unfolding tcp_send_nodata
  conns-tcp_send_nodata i s = conns-tcp_send_noopts i (record s { len = 40 })

  pub conns-tcp_send_ack : (i : ℕ) (s : Stack A) → (tcp_send_ack i s).conns ≡ s.conns
  unfolding tcp_send_ack
  conns-tcp_send_ack i s = conns-tcp_send_nodata i (fill at_flags (tcp_ack ∷ []) s)

  pub conns-tcp_send_finack : (i : ℕ) (s : Stack A) → (tcp_send_finack i s).conns ≡ s.conns
  unfolding tcp_send_finack
  conns-tcp_send_finack i s = conns-tcp_send_nodata i (fill at_flags ((tcp_fin + tcp_ack) ∷ []) s)

  pub conns-tcp_send_syn : (i : ℕ) (s : Stack A) → (tcp_send_syn i s).conns ≡ s.conns
  unfolding tcp_send_syn tcp_send tcp_send_noconn ip_send_nolen send
  conns-tcp_send_syn i s = refl

  pub conns-tcp_send_synack : (i : ℕ) (s : Stack A) → (tcp_send_synack i s).conns ≡ s.conns
  unfolding tcp_send_synack
  conns-tcp_send_synack i s = conns-tcp_send_syn i (fill at_flags (tcp_ack ∷ []) s)

  pub conns-drop_packet : (s : Stack A) → (drop_packet s).conns ≡ s.conns
  unfolding drop_packet
  conns-drop_packet s = refl

  pub conns-apprexmit : (i : ℕ) (s : Stack A) → (apprexmit i s).conns ≡ s.conns
  unfolding apprexmit
  conns-apprexmit i s =
      if-same (λ (t : Stack A). t.conns) (ltb 0 s.slen && ltb 0 (s.conns i).len) _ _ s.conns
        (conns-tcp_send_noopts i _)
        (if-same (λ (t : Stack A). t.conns) (has_bit s.flags uip_newdata) _ _ s.conns
          (conns-tcp_send_noopts i _) (conns-drop_packet _))
