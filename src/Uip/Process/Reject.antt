-- ===== src/Uip/Process/Reject.antt =====
-- Packets that the checks of the IP header reject.
use fx_ip.Base.{Option, arith, ltb, not, refl, some, ◌%◌, ◌&&◌, ◌+◌, ◌==◌, ◌||◌, ◌≡◌, ◌≤◌}
use fx_ip.Uip.Config.{at_destipaddr, at_ipoffset, at_len, at_vhl}
use fx_ip.Uip.Process.{ip_input}
use fx_ip.Uip.Process.Moves.{if-holds}
use fx_ip.Uip.Send.{drop_packet, uip_ipchksum}
use fx_ip.Uip.State.{Stack, get16, get_ip, uip_ipaddr_cmp}

-- what a packet has to be to get past the checks of the IP header
pub record IsSound {A : Type 0} (s : Stack A) : Type 0 where
  pub version : s.buf at_vhl ≡ 0x45
  pub whole : get16 s.buf at_len ≤ s.len
  pub unfragmented : (s.buf at_ipoffset % 64 ≡ 0) × (s.buf (at_ipoffset + 1) ≡ 0)
  pub verified : uip_ipchksum s.buf ≡ 0xffff

module _ {A : Type 0} (appcall : Stack A → Stack A) where
  -- The packet is dropped without an answer.
  abbrev pub Dropped : Stack A → Option (Stack A) → Type 0
  Dropped s o =
      (s' : Stack A) × (o ≡ some s')
      × (s'.len ≡ 0)
      × (s'.conns ≡ s.conns)
      × (s'.app ≡ s.app)
      × (s'.buf ≡ s.buf)

  dropped :
      (s t : Stack A)
      → t.conns ≡ s.conns
      → t.app ≡ s.app
      → t.buf ≡ s.buf
      → Dropped s (some (drop_packet t))
  unfolding drop_packet
  dropped s t c a b = (_, refl, refl, c, a, b)

  -- A packet that has another version or header length than 0x45, or is shorter than its header
  -- says, or is a fragment, or has a bad IP checksum, is dropped whatever else it holds: the call
  -- returns with length 0, and the connections, the application and the buffer are as they were.
  pub ip_input_rejects : (s : Stack A) → ¬ IsSound s → Dropped s (ip_input appcall s)
  unfolding ip_input
  ip_input_rejects s bad =
      if-holds (Dropped s) (not (s.buf at_vhl == 0x45)) _ _ (λ _. dropped s _ refl refl refl)
        (λ v.
          if-holds (Dropped s) (ltb s.len (get16 s.buf at_len)) _ _
            (λ _. dropped s _ refl refl refl)
            (λ l.
              if-holds (Dropped s)
                (not (s.buf at_ipoffset % 64 == 0) || not (s.buf (at_ipoffset + 1) == 0)) _ _
                (λ _. dropped s _ refl refl refl)
                (λ f.
                  if-holds (Dropped s)
                    (not (uip_ipaddr_cmp s.hostaddr (record { hi = 0; lo = 0 }))
                      && not (uip_ipaddr_cmp (get_ip s.buf at_destipaddr) s.hostaddr))
                    _ _ (λ _. dropped s _ refl refl refl)
                    (λ _.
                      if-holds (Dropped s) (not (uip_ipchksum s.buf == 0xffff)) _ _
                        (λ _. dropped s _ refl refl refl)
                        (λ k. absurd (
                          bad (record {
                            version = ground arith;
                            whole = ground arith;
                            unfragmented = (ground arith, ground arith);
                            verified = ground arith;
                          })))))))
