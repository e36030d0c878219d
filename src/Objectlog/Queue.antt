-- ===== src/Objectlog/Queue.antt =====
-- The log as a queue of objects: the oldest ones are dropped, a new one is put behind the newest.
use native.Mathlib.Nat.{mod-add-mod}
use mathlib.Core.Option
use mathlib.Core.Path.{subst}
use fx_ip.Base.{
  List, [], ap, arith, dec_lt, length, mod_once, mod_small, refl, some, suc, sym, ℕ, ◌%◌, ◌++◌, ◌+◌,
  ◌-◌, ◌<◌, ◌^◌, ◌∙◌, ◌∷◌, ◌≡◌, ◌≢◌, ◌≤◌,
}
use fx_ip.Objectlog.{Objectlog, drop_first_entry, get_next_entry, one_less, objectlog_free_space}
use fx_ip.Objectlog.Entries.{Entries, Entries-snoc, Object-place, shift}
use fx_ip.Objectlog.Object.{Object}
use fx_ip.Objectlog.Walk.{Object-pos, at_read, get_next_entry_lem}
use fx_ip.Ring.Inv.{IsValid}
use fx_ip.Ring.Refine.{mod_distinct}

-- The log holds these objects, the oldest first, and `newest` behind them.
pub record Holds (log : Objectlog) (older : List (List ℕ)) (newest : List ℕ) : Type 0 where
  pub valid : IsValid log.ring
  pub not_tiny : 1 < log.ring.size
  pub counted : log.num_entries ≡ suc (length older)
  pub front : ℕ
  pub back : ℕ
  pub entries : Entries log.ring.size log.ring.cell log.ptr_first older front
  pub last_entry : Object log.ring.size log.ring.cell log.ptr_last newest back
  pub first_in : log.ptr_first < log.ring.size
  pub last_place : log.ptr_last ≡ (log.ptr_first + front) % log.ring.size
  pub log_end : log.ring.write_ptr ≡ (log.ptr_first + (front + back)) % log.ring.size
  pub fits : front + back ≤ log.ring.size

-- `objectlog_free_space` of a log whose `n` bytes end at `w`.
pub free_space_lem :
    (log : Objectlog) (n w : ℕ)
    → log.ring.size < 2 ^ 16
    → log.ptr_first < log.ring.size
    → 0 < n
    → n ≤ log.ring.size
    → w ≡ (log.ptr_first + n) % log.ring.size
    → objectlog_free_space log w ≡ log.ring.size - n
unfolding objectlog_free_space
free_space_lem log n w h k l a e = elim (dec_lt (log.ptr_first + n) log.ring.size) [
  | yes s ↦ let f = mod_small (log.ptr_first + n) log.ring.size s in ground arith
  | no s ↦
      let f = mod_once (log.ptr_first + n) log.ring.size (omega arith) (omega arith) in ground arith
]

module _ {log : Objectlog} {older : List (List ℕ)} {newest : List ℕ}
    (h : Holds log older newest) where
  pub last_in : log.ptr_last < log.ring.size
  last_in = Object-place log.ring.size h.last_entry

  pub back_pos : 0 < h.back
  back_pos = Object-pos h.last_entry

  -- `get_next_entry` at the newest entry goes to the end of the log.
  pub newest_end :
      get_next_entry log log.ptr_last ≡ some (log.ring.write_ptr, at_read log log.ring.write_ptr)
  newest_end =
      get_next_entry_lem log h.valid.small h.last_entry last_in (omega (arith, h.fits)) (λ e. sym (
        h.last_place
        ∙ ap (λ t. (log.ptr_first + t) % log.ring.size) (omega (arith, h.fits))
        ∙ mod_small (log.ptr_first + 0) log.ring.size (omega (arith, h.first_in))
        ∙ omega arith))
      ∙ ap (λ q. some (q, at_read log q))
          (ap (λ t. (t + h.back) % log.ring.size) h.last_place
            ∙ mod-add-mod (log.ptr_first + h.front) log.ring.size h.back
            ∙ ap (λ t. t % log.ring.size) (omega arith)
            ∙ sym h.log_end)

  pub at_read-Holds : (q : ℕ) → q < log.ring.size → Holds (at_read log q) older newest
  at_read-Holds q lt = record {
    valid = record { small = h.valid.small; read_in = lt; write_in = h.valid.write_in };
    not_tiny = h.not_tiny;
    counted = h.counted;
    front = h.front;
    back = h.back;
    entries = h.entries;
    last_entry = h.last_entry;
    first_in = h.first_in;
    last_place = h.last_place;
    log_end = h.log_end;
    fits = h.fits;
  }

  pub at_read_kept :
      (q : ℕ) (lt : q < log.ring.size)
      → ((at_read-Holds q lt).front ≡ h.front) × ((at_read-Holds q lt).back ≡ h.back)
  unfolding at_read-Holds
  at_read_kept q lt = (refl, refl)

  -- the newest entry stands behind the others
  pub Holds-Entries :
      Entries log.ring.size log.ring.cell log.ptr_first (older ++ (newest ∷ [])) (h.front + h.back)
  Holds-Entries =
      Entries-snoc log.ring.size log.ptr_first older h.front h.first_in h.entries
        (subst (λ q. Object log.ring.size log.ring.cell q newest h.back) h.last_place h.last_entry)

  pub free_space_Holds :
      objectlog_free_space log log.ring.write_ptr ≡ log.ring.size - (h.front + h.back)
  free_space_Holds =
      free_space_lem log (h.front + h.back) log.ring.write_ptr h.valid.small h.first_in
        (omega (arith, back_pos)) h.fits h.log_end

-- the log without its oldest entry, of `n` bytes
abbrev pub without_first : Objectlog → ℕ → Objectlog
without_first log n =
    let q = (log.ptr_first + n) % log.ring.size in
    record (at_read log q) { ptr_first = q; num_entries = log.num_entries - 1 }

module _ {log : Objectlog} {d : List ℕ} {older : List (List ℕ)} {newest : List ℕ}
    (h : Holds log (d ∷ older) newest) where
  pub dropped_room : h.entries.0 < log.ring.size
  dropped_room = omega (arith, back_pos h, h.fits, h.entries.4)

  -- The oldest entry goes, where it is not the newest one.
  pub drop_first_entry_lem : drop_first_entry log ≡ some (without_first log h.entries.0)
  drop_first_entry_lem =
      let counted : one_less log.num_entries ≡ log.num_entries - 1 = ground (arith, h.counted) in
      ap (Option.map (λ r. record r.1 { ptr_first = r.0; num_entries = one_less r.1.num_entries }))
        (get_next_entry_lem log h.valid.small h.entries.2 h.first_in (omega (arith, dropped_room))
          (λ e. absurd (omega (arith, dropped_room))))
      ∙ ap (λ n. some (record (without_first log h.entries.0) { num_entries = n })) counted

  pub without_first-Holds : Holds (without_first log h.entries.0) older newest
  without_first-Holds = record {
    valid = record {
      small = h.valid.small;
      read_in = omega (arith, h.first_in);
      write_in = h.valid.write_in;
    };
    not_tiny = h.not_tiny;
    counted = omega (arith, h.counted);
    front = h.entries.1;
    back = h.back;
    entries = h.entries.3;
    last_entry = h.last_entry;
    first_in = omega (arith, h.first_in);
    last_place =
        h.last_place
        ∙ ap (λ t. (log.ptr_first + t) % log.ring.size) h.entries.4
        ∙ sym (shift log.ring.size log.ptr_first h.entries.0 h.entries.1);
    log_end =
        h.log_end
        ∙ ap (λ t. (log.ptr_first + t) % log.ring.size) (omega (arith, h.entries.4))
        ∙ sym (shift log.ring.size log.ptr_first h.entries.0 (h.entries.1 + h.back));
    fits = omega (arith, h.entries.4, h.fits);
  }

  pub back_kept : without_first-Holds.back ≡ h.back
  unfolding without_first-Holds
  back_kept = refl

  -- Its start is not that of the newest one.
  pub first-ne-last : log.ptr_first ≢ log.ptr_last
  first-ne-last e =
      mod_distinct log.ring.size log.ptr_first 0 h.front h.first_in
        (omega (arith, h.entries.4, Object-pos h.entries.2)) (omega (arith, back_pos h, h.fits))
        (mod_small (log.ptr_first + 0) log.ring.size (omega (arith, h.first_in))
          ∙ omega arith
          ∙ h.last_place)
