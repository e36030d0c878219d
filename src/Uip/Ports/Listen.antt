-- ===== src/Uip/Ports/Listen.antt =====
-- The table of listening ports: `uip_listen` and `uip_unlisten`.
use native.Mathlib.Nat.{le_refl}
use fx_ip.Base.{
  Bool, Bool-cases, Mem, ap, ap₂, arith, false, inl, inr, poke, poke_ne, poke_self, refl, suc, sym,
  true, zero, ℕ, ◌+◌, ◌<◌, ◌==◌, ◌||◌, ◌∙◌, ◌≡◌, ◌≢◌, ◌≤◌,
}
use fx_ip.Uip.Config.{uip_listenports}
use fx_ip.Uip.Ports.{listening, replace_first, uip_listen, uip_unlisten}
use fx_ip.Uip.State.{Stack}

replace_first_before :
    (ports : Mem) (old new n i j : ℕ) → j < i → replace_first ports old new n i j ≡ ports j
unfolding replace_first
replace_first_before ports old new zero i j h = refl
replace_first_before ports old new (suc n) i j h = elim (Bool-cases (ports i == old)) [
  | inl e ↦ rw e (ground arith)
  | inr e ↦ rw e (replace_first_before ports old new n (i + 1) j (omega arith))
]

listening-agree :
    (p p' : Mem) (q n i : ℕ)
    → ((j : ℕ) → i ≤ j → p j ≡ p' j)
    → listening p q n i ≡ listening p' q n i
unfolding listening
listening-agree p p' q zero i h = refl
listening-agree p p' q (suc n) i h =
    ap₂ (λ x b. (x == q) || b) (h i (le_refl i))
      (listening-agree p p' q n (i + 1) (λ j k. h j (omega arith)))

replace_first_hit :
    (ports : Mem) (old new n i : ℕ)
    → (ports i == old) ≡ true
    → replace_first ports old new (suc n) i ≡ poke ports i new
unfolding replace_first
replace_first_hit ports old new n i e = rw e refl

replace_first_miss :
    (ports : Mem) (old new n i : ℕ)
    → (ports i == old) ≡ false
    → replace_first ports old new (suc n) i ≡ replace_first ports old new n (i + 1)
unfolding replace_first
replace_first_miss ports old new n i e = rw e refl

listening_step :
    (p : Mem) (q n i : ℕ) → listening p q (suc n) i ≡ (p i == q || listening p q n (i + 1))
unfolding listening
listening_step p q n i = refl

listening-replace_first :
    (ports : Mem) (old new n i : ℕ)
    → listening ports old n i ≡ true
    → listening (replace_first ports old new n i) new n i ≡ true
listening-replace_first ports old new zero i h = unfold listening in ground arith
listening-replace_first ports old new (suc n) i h = elim (Bool-cases (ports i == old)) [
  | inl e ↦
      ap (λ m. listening m new (suc n) i) (replace_first_hit ports old new n i e)
      ∙ listening_step (poke ports i new) new n i
      ∙ ap (λ x. x == new || listening (poke ports i new) new n (i + 1)) (poke_self ports i new)
      ∙ ground arith
  | inr e ↦
      ap (λ m. listening m new (suc n) i) (replace_first_miss ports old new n i e)
      ∙ listening_step (replace_first ports old new n (i + 1)) new n i
      ∙ ground (
        arith,
        listening-replace_first ports old new n (i + 1)
            (ground (arith, listening_step ports old n i)),
      )
]

listening-replace_first_other :
    (ports : Mem) (old new q n i : ℕ)
    → q ≢ old
    → q ≢ new
    → listening (replace_first ports old new n i) q n i ≡ listening ports q n i
listening-replace_first_other ports old new q zero i a b = unfold listening in refl
listening-replace_first_other ports old new q (suc n) i a b = elim (Bool-cases (ports i == old)) [
  | inl e ↦
      ap (λ m. listening m q (suc n) i) (replace_first_hit ports old new n i e)
      ∙ listening_step (poke ports i new) q n i
      ∙ ap₂ (λ x y. x == q || y) (poke_self ports i new)
          (listening-agree (poke ports i new) ports q n (i + 1)
            (λ j k. poke_ne ports i j new (omega arith)))
      ∙ ground arith
      ∙ sym (listening_step ports q n i)
  | inr e ↦
      ap (λ m. listening m q (suc n) i) (replace_first_miss ports old new n i e)
      ∙ listening_step (replace_first ports old new n (i + 1)) q n i
      ∙ ap₂ (λ x y. x == q || y) (replace_first_before ports old new n (i + 1) i (omega arith))
          (listening-replace_first_other ports old new q n (i + 1) a b)
      ∙ sym (listening_step ports q n i)
]

-- Does the stack listen to the port?
abbrev pub listens : {A : Type 0} → Stack A → ℕ → Bool
listens s port = listening s.listenports port uip_listenports 0

-- With an entry of the table free, the stack listens to a port after `uip_listen` for it; and for
-- any other port than this and 0, neither `uip_listen` nor `uip_unlisten` for the first changes
-- whether the stack listens to it.
pub uip_listen_lem :
    {A : Type 0} (port q : ℕ) (s : Stack A)
    → listens s 0 ≡ true
    → q ≢ 0
    → q ≢ port
    → (listens (uip_listen port s) port ≡ true)
      × (listens (uip_listen port s) q ≡ listens s q)
      × (listens (uip_unlisten port s) q ≡ listens s q)
unfolding uip_listen uip_unlisten
uip_listen_lem port q s free a b = (
  listening-replace_first s.listenports 0 port uip_listenports 0 free,
  listening-replace_first_other s.listenports 0 port q uip_listenports 0 a b,
  listening-replace_first_other s.listenports port 0 q uip_listenports 0 b a,
)
