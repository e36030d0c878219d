-- ===== src/Uip/Ports/Choice.antt =====
-- The search for a free port and for an unused connection.
use native.Mathlib.Nat.{le_refl}
use fx_ip.Base.{
  Bool-cases, Option, Option-cases, ap, arith, dec_lt, false, if◌then◌else◌, inl, inr, leb, ltb,
  none, not, refl, some, suc, true, zero, ℕ, ◌&&◌, ◌+◌, ◌-◌, ◌<◌, ◌==◌, ◌≡◌, ◌≢◌, ◌≤◌, ◌⊎◌,
}
use fx_ip.Uip.Config.{uip_closed, uip_conns, uip_time_wait}
use fx_ip.Uip.Ports.{better, choose_port, find_unused, next_port, port_fuel, port_used}
use fx_ip.Uip.State.{Conn}

-- what `find_unused` may answer for a table of `n` connections
abbrev pub IsChoice : (ℕ → Conn) → ℕ → Option ℕ → Type 0
IsChoice conns n none =
    (j : ℕ)
    → j < n
    → ((conns j).tcpstateflags ≢ uip_closed) × ((conns j).tcpstateflags ≢ uip_time_wait)
IsChoice conns n (some k) =
    (k < n)
    × (((conns k).tcpstateflags ≡ uip_closed)
        ⊎ (((conns k).tcpstateflags ≡ uip_time_wait)
            × ((j : ℕ)
                → j < n
                → ((conns j).tcpstateflags ≢ uip_closed)
                  × ((conns j).tcpstateflags ≡ uip_time_wait → (conns j).timer ≤ (conns k).timer))))

-- what the loop has found in the first `n` entries, none of them closed
abbrev IsBest : (ℕ → Conn) → ℕ → Option ℕ → Type 0
IsBest conns n none = IsChoice conns n none
IsBest conns n (some k) =
    (k < n)
    × ((conns k).tcpstateflags ≡ uip_time_wait)
    × ((j : ℕ)
        → j < n
        → ((conns j).tcpstateflags ≢ uip_closed)
          × ((conns j).tcpstateflags ≡ uip_time_wait → (conns j).timer ≤ (conns k).timer))

below_suc : (j i : ℕ) → j < i + 1 → (j < i) ⊎ (j ≡ i)
below_suc j i h = omega arith

IsBest-next :
    (conns : ℕ → Conn) (i : ℕ) (best : Option ℕ)
    → IsBest conns i best
    → (conns i).tcpstateflags ≢ uip_closed
    → IsBest conns (i + 1) (if better conns best i then some i else best)
IsBest-next conns i none h busy = elim (Bool-cases ((conns i).tcpstateflags == uip_time_wait)) [
  | inl e ↦ rw e (
    omega arith,
    ground arith,
    λ j lt. elim (dec_lt j i) [
      | yes below ↦ ((h j below).0, λ w. absurd ((h j below).1 w))
      | no above ↦ let q : j ≡ i = omega arith in rw q (busy, λ w. le_refl (conns i).timer)
    ],
  )
  | inr e ↦ rw e (λ j lt. elim (dec_lt j i) [
    | yes below ↦ h j below
    | no above ↦ let q : j ≡ i = omega arith in rw q (busy, ground arith)
  ])
]
IsBest-next conns i (some k) h busy = elim (Bool-cases (better conns (some k) i)) [
  | inl e ↦ rw e (
    omega arith,
    ground arith,
    λ j lt. elim (dec_lt j i) [
      | yes below ↦ ((h.2 j below).0, λ w. omega (arith, (h.2 j below).1 w, older e))
      | no above ↦ let q : j ≡ i = omega arith in rw q (busy, λ w. le_refl (conns i).timer)
    ],
  )
  | inr e ↦ rw e (
    omega (arith, h.0),
    h.1,
    λ j lt. elim (dec_lt j i) [
      | yes below ↦ h.2 j below
      | no above ↦ let q : j ≡ i = omega arith in rw q (busy, λ w. ground arith)
    ],
  )
]
  where
    older : better conns (some k) i ≡ true → (conns k).timer < (conns i).timer
    older e = ground arith

find_unused-IsChoice_from :
    (conns : ℕ → Conn) (n i total : ℕ) (best : Option ℕ)
    → IsBest conns i best
    → i + n ≡ total
    → IsChoice conns total (find_unused conns n i best)
unfolding find_unused
find_unused-IsChoice_from conns zero i total none h e =
    let q : i ≡ total = omega arith in rw (← q) h
find_unused-IsChoice_from conns zero i total (some k) h e =
    let q : i ≡ total = omega arith in rw (← q) (h.0, inr (h.1, h.2))
find_unused-IsChoice_from conns (suc n) i total best h e =
    elim (Bool-cases ((conns i).tcpstateflags == uip_closed)) [
      | inl c ↦ rw c (omega arith, inl (ground arith))
      | inr c ↦ rw c (
          find_unused-IsChoice_from conns n (i + 1) total
            (if better conns best i then some i else best)
            (IsBest-next conns i best h (ground arith)) (omega arith))
    ]

-- The search for a connection answers a closed entry; or, where none is closed, an entry in
-- TIME_WAIT of which no entry in TIME_WAIT has a larger timer; or nothing, where every entry is in
-- use.
pub find_unused-IsChoice :
    (conns : ℕ → Conn) → IsChoice conns uip_conns (find_unused conns uip_conns 0 none)
find_unused-IsChoice conns =
    find_unused-IsChoice_from conns uip_conns 0 uip_conns none (λ j lt. absurd (omega arith)) refl

-- how many steps of `next_port` lead from `p` to `q`, for a `q` that they reach
abbrev rank : ℕ → ℕ → ℕ
rank p q = if ltb p q then q - p else if ltb q 4096 then 99999 else q + 27904 - p

rank_next : (p : ℕ) → p < 32000 → rank p (next_port p) ≡ 1
rank_next p h = ground arith

rank_self : (p f : ℕ) → p < 32000 → f < 20000 → f < rank (next_port p) (next_port p)
rank_self p f h k = ground arith

rank_later :
    (p q f : ℕ)
    → p < 32000
    → f < 20000
    → rank (next_port p) q ≤ f
    → (rank p q ≤ f + 1) × (q ≢ next_port p)
rank_later p q f h k r = ground arith

-- the open connections whose port the next `f` tries can meet
near : (ℕ → Conn) → ℕ → ℕ → ℕ → ℕ → ℕ
near conns f p zero i = 0
near conns f p (suc n) i =
    (if not ((conns i).tcpstateflags == uip_closed) && leb (rank p (conns i).lport) f then 1 else 0)
    + near conns f p n (i + 1)

near-le : (conns : ℕ → Conn) (f p n i : ℕ) → near conns f p n i ≤ n
unfolding near
near-le conns f p zero i = omega arith
near-le conns f p (suc n) i = ground (arith, near-le conns f p n (i + 1))

-- One try looks one step further …
near_step :
    (conns : ℕ → Conn) (f p n i : ℕ)
    → p < 32000
    → f < 20000
    → near conns f (next_port p) n i ≤ near conns (f + 1) p n i
unfolding near
near_step conns f p zero i h k = omega arith
near_step conns f p (suc n) i h k =
    ground (arith, near_step conns f p n (i + 1) h k, rank_later p (conns i).lport f h k)

-- … and leaves behind the connection that uses the port it met.
near_used :
    (conns : ℕ → Conn) (f p n i : ℕ)
    → p < 32000
    → f < 20000
    → port_used conns (next_port p) n i ≡ true
    → near conns f (next_port p) n i + 1 ≤ near conns (f + 1) p n i
unfolding near port_used
near_used conns f p zero i h k u = cc
near_used conns f p (suc n) i h k u =
    elim (Bool-cases
      (not ((conns i).tcpstateflags == uip_closed) && (conns i).lport == next_port p)) [
        | inl e ↦
            let q : (conns i).lport ≡ next_port p = ground arith in
            rw q
              (ground (arith, near_step conns f p n (i + 1) h k, rank_next p h, rank_self p f h k))
        | inr e ↦
            ground (arith, near_used conns f p n (i + 1) h k, rank_later p (conns i).lport f h k)
      ]

choose_port-none :
    (fuel : ℕ) (conns : ℕ → Conn) (p : ℕ)
    → p < 32000
    → fuel < 20000
    → choose_port fuel conns p ≡ none
    → fuel ≤ near conns fuel p uip_conns 0
unfolding choose_port
choose_port-none zero conns p h k e = omega arith
choose_port-none (suc fuel) conns p h k e =
    elim (Bool-cases (port_used conns (next_port p) uip_conns 0)) [
      | inl u ↦ omega (
        arith,
        ap (λ t. near conns t p uip_conns 0) {x = fuel + 1} {y = suc fuel} (omega arith),
        near_used conns fuel p uip_conns 0 h (omega arith) u,
        choose_port-none fuel conns (next_port p) (ground arith) (omega arith) (rw u at e),
      )
      | inr u ↦ absurd (unfold choose_port in ground arith)
    ]

choose_port-some :
    (fuel : ℕ) (conns : ℕ → Conn) (p port : ℕ)
    → p < 32000
    → choose_port fuel conns p ≡ some port
    → (0 < port) × (port < 32000) × (port_used conns port uip_conns 0 ≡ false)
unfolding choose_port
choose_port-some zero conns p port h e = absurd (ground arith)
choose_port-some (suc fuel) conns p port h e =
    elim (Bool-cases (port_used conns (next_port p) uip_conns 0)) [
      | inl u ↦ choose_port-some fuel conns (next_port p) port (ground arith) (rw u at e)
      | inr u ↦
          let q : next_port p ≡ port = unfold choose_port in ground arith in
          rw (← q) (ground arith, ground arith, u)
    ]

-- With its last port below 32000, the search for a port ends within eleven tries: the port it
-- answers is between 1 and 31999, and no open connection uses it.
pub choose_port_free :
    (conns : ℕ → Conn) (lastport : ℕ)
    → lastport < 32000
    → (port : ℕ) × (choose_port port_fuel conns lastport ≡ some port)
      × (0 < port)
      × (port < 32000)
      × (port_used conns port uip_conns 0 ≡ false)
choose_port_free conns lastport h = elim (Option-cases (choose_port port_fuel conns lastport)) [
  | inl e ↦ absurd (
      omega (
        arith,
        choose_port-none port_fuel conns lastport h (omega arith) e,
        near-le conns port_fuel lastport uip_conns 0,
      ))
  | inr (port, e) ↦
      let r = choose_port-some port_fuel conns lastport port h e in (port, e, r.0, r.1, r.2)
]
