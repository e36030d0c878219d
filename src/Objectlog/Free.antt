-- ===== src/Objectlog/Free.antt =====
-- The loop that drops the oldest objects until a new one fits.
use fx_ip.Base.{
  Bool, List, Option, [], ap, arith, dec_lt, drop, false, if◌then◌else◌, inl, inr, length, ltb,
  mod_small, none, not, refl, some, suc, true, zero, ℕ, ◌&&◌, ◌+◌, ◌<◌, ◌==◌, ◌∙◌, ◌∷◌, ◌≡◌, ◌≤◌,
  ◌⊎◌,
}
use fx_ip.Objectlog.{Objectlog, drop_entries, objectlog_free_space}
use fx_ip.Objectlog.Queue.{
  Holds, back_kept, drop_first_entry_lem, first-ne-last, free_space_Holds, without_first-Holds,
}

-- What the loop that drops entries comes to: so many of the older ones are gone, `total` bytes are
-- free, and nothing else was changed.
pub record Freed (log : Objectlog) (older : List (List ℕ)) (newest : List ℕ) (total held : ℕ)
    (result : Option Objectlog) : Type 0 where
  pub dropped : ℕ
  pub log' : Objectlog
  pub returns : result ≡ some log'
  pub holds : Holds log' (drop dropped older) newest
  pub room_made : holds.front + holds.back + total ≤ log.ring.size
  pub size_kept : log'.ring.size ≡ log.ring.size
  pub end_kept : log'.ring.write_ptr ≡ log.ring.write_ptr
  pub not_all : dropped ≤ length older
  pub needed : (dropped ≡ 0) ⊎ (log.ring.size < held + total)

free_test :
    {log : Objectlog} {older : List (List ℕ)} {newest : List ℕ} (h : Holds log older newest)
    (total : ℕ)
    → ((ltb (objectlog_free_space log log.ring.write_ptr) total ≡ false)
        × (h.front + h.back + total ≤ log.ring.size))
      ⊎ ((ltb (objectlog_free_space log log.ring.write_ptr) total ≡ true)
          × (log.ring.size < h.front + h.back + total))
free_test {log} h total = elim (dec_lt log.ring.size (h.front + h.back + total)) [
  | yes a ↦ let f = free_space_Holds h in inr (ground arith, a)
  | no a ↦ let f = free_space_Holds h in inl (ground arith, omega arith)
]

pub stop_at :
    {A : Type 0} (b c : Bool) (x y : A)
    → (b ≡ false) ⊎ (c ≡ true)
    → (if b && not c then x else y) ≡ y
stop_at b c x y (inl e) = rw e refl
stop_at b c x y (inr e) = ground arith

go_on :
    {A : Type 0} (b c : Bool) (x y : A) → b ≡ true → c ≡ false → (if b && not c then x else y) ≡ x
go_on b c x y e f = rw (e, f) refl

nothing_dropped :
    {log : Objectlog} {older : List (List ℕ)} {newest : List ℕ} {total : ℕ}
    {result : Option Objectlog} (h : Holds log older newest)
    → result ≡ some log
    → h.front + h.back + total ≤ log.ring.size
    → Freed log older newest total (h.front + h.back) result
nothing_dropped {log} h e r = record {
  dropped = 0;
  log' = log;
  returns = e;
  holds = h;
  room_made = r;
  size_kept = refl;
  end_kept = refl;
  not_all = omega arith;
  needed = inl refl;
}

-- For a log of objects, the loop ends within its fuel and makes room for `total` bytes, if these fit
-- beside the newest object: it drops the oldest objects, none of them where there is room already.
pub drop_entries_lem :
    (fuel : ℕ) {log : Objectlog} (older : List (List ℕ)) {newest : List ℕ} (total : ℕ)
    (h : Holds log older newest)
    → length older < fuel
    → h.back + total ≤ log.ring.size
    → Freed log older newest total
        (h.front + h.back)
        (drop_entries fuel log.ring.write_ptr total log)
unfolding drop_entries
drop_entries_lem zero older total h lt fits = absurd (omega arith)
drop_entries_lem (suc fuel) {log} [] total h lt fits =
    nothing_dropped h
      (stop_at (ltb (objectlog_free_space log log.ring.write_ptr) total)
        (log.ptr_first == log.ptr_last) _ _ (inr same))
      (omega (arith, h.entries))
  where
    same : (log.ptr_first == log.ptr_last) ≡ true
    same = ground (
      arith,
      h.entries,
      h.last_place,
      h.first_in,
      mod_small (log.ptr_first + h.front) log.ring.size,
    )
drop_entries_lem (suc fuel) {log} (d ∷ older) total h lt fits = elim (free_test h total) [
  | inl (e, r) ↦
      nothing_dropped h
        (stop_at (ltb (objectlog_free_space log log.ring.write_ptr) total)
          (log.ptr_first == log.ptr_last) _ _ (inl e))
        r
  | inr (e, r) ↦
      let f =
        drop_entries_lem fuel older total (without_first-Holds h) (omega arith)
          (omega (arith, back_kept h)) in
      record {
        dropped = suc f.dropped;
        log' = f.log';
        returns =
            go_on (ltb (objectlog_free_space log log.ring.write_ptr) total)
              (log.ptr_first == log.ptr_last) _ _ e (ground (arith, first-ne-last h))
            ∙ ap
                (λ (o : Option Objectlog). elim o as (λ z. Option Objectlog) [
                  | none ↦ none
                  | some later ↦ drop_entries fuel log.ring.write_ptr total later
                ])
                (drop_first_entry_lem h)
            ∙ f.returns;
        holds = f.holds;
        room_made = f.room_made;
        size_kept = f.size_kept;
        end_kept = f.end_kept;
        not_all = omega (arith, f.not_all);
        needed = inr r;
      }
]
