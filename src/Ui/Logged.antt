-- ===== src/Ui/Logged.antt =====
-- A message in the log: `ui_write_log` and `ui_objectlog_get_message` of src/ui.c.
use mathlib.Core.Option
use mathlib.Core.Path.{subst}
use fx_ip.Base.{
  List, Mem, Option, [], ap, ap₂, arith, drop, inl, inr, take, length, peek, pos, refl, some, suc,
  append-nil, ℕ, ◌++◌, ◌+◌, ◌-◌, ◌<◌, ◌^◌, ◌∙◌, ◌∷◌, ◌≡◌, ◌≤◌, ◌⊎◌,
}
use fx_ip.Objectlog.{Objectlog, total_len}
use fx_ip.Objectlog.Add.{freed, new_fits, write_returns}
use fx_ip.Objectlog.Append.{kept_size, new_entry, stored, stored-Holds}
use fx_ip.Objectlog.Object.{Object}
use fx_ip.Objectlog.Format.{flat, encode}
use fx_ip.Objectlog.Length.{encode-le-total_len, fragments}
use fx_ip.Objectlog.Newest.{objectlog_iterator_newest, stored_first}
use fx_ip.Objectlog.Queue.{Holds}
use fx_ip.Objectlog.Walk.{at_read}
use fx_ip.Ui.{Cursor, Message, message_hdr, ui_objectlog_get_message, ui_write_log}
use fx_ip.Ui.Header.{Object-length, message_at_lem}
use fx_ip.Ui.Reading.{read_text}

-- the scatter list of `ui_write_log`, and its bytes
abbrev pub message_list : ℕ → ℕ → ℕ → List ℕ → List (List ℕ)
message_list page_id kind channel text = message_hdr page_id kind channel ∷ text ∷ [] ∷ []

pub flat_message :
    (page_id kind channel : ℕ) (text : List ℕ)
    → flat (message_list page_id kind channel text) ≡ message_hdr page_id kind channel ++ text
flat_message page_id kind channel [] = refl
flat_message page_id kind channel (x ∷ xs) =
    ap (λ t. page_id ∷ kind ∷ channel ∷ x ∷ t) (append-nil xs)

-- what a call of `ui_objectlog_get_message` that finds this message gives, from `offset` on
pub record Shows (page_id kind channel : ℕ) (text : List ℕ) (result : Option Message) : Type 0 where
  pub message : Message
  pub at_text : Cursor
  pub returns : result ≡ some message
  pub header : peek message.hdr 0 3 ≡ message_hdr page_id kind channel
  pub not_null : message.at_text ≡ some at_text
  pub reads : read_text message.log at_text ≡ some text

module _ {log : Objectlog} {older : List (List ℕ)} {newest : List ℕ} (h : Holds log older newest)
    (d : List ℕ) (page_id kind channel : ℕ) (text : List ℕ)
    (is_message : d ≡ message_hdr page_id kind channel ++ text)
    (made : h.front + h.back + length (encode log.ring.size 0 log.ring.write_ptr d) ≤ log.ring.size)
    (one_piece : log.ring.write_ptr + length (encode log.ring.size 0 log.ring.write_ptr d)
      ≤ log.ring.size)
    (offset : ℕ) (hdr : Mem) (in_text : (offset ≡ 0) ⊎ (offset < length text)) where
  d_length : length d ≡ 3 + length text
  d_length = ap length is_message ∙ omega arith

  -- the message that was stored is found by the number of the newest object
  stored-Shows :
      Shows page_id kind channel
        (drop offset text)
        (ui_objectlog_get_message (stored log d) (pos ((stored log d).num_entries - 1)) offset hdr)
  unfolding ui_objectlog_get_message
  stored-Shows =
      let w : ℕ = log.ring.write_ptr in
      let some_data : 0 < length d = omega (arith, d_length) in
      let same = kept_size h d some_data made in
      let (q, it) = objectlog_iterator_newest (stored-Holds h d some_data made) in
      let place : Object (stored log d).ring.size (stored log d).ring.cell w d
          (length (encode log.ring.size 0 w d)) =
        rw same (new_entry h d some_data made) in
      let longer : length d < length (encode log.ring.size 0 w d) =
        Object-length (stored log d) place in
      let inside : (offset ≡ 0) ⊎ (3 + offset < length d) = elim in_text [
        | inl e ↦ inl e
        | inr lt ↦ inr (omega (arith, d_length))
      ] in
      let first = stored_first h d some_data made (omega arith) in
      let (m, c, e, f, g, l, r) =
        message_at_lem (at_read (stored log d) q) w (length (encode log.ring.size 0 w d)) d offset
          hdr place (omega (arith, same)) (omega (arith, first, d_length)) inside in
      record {
        message = m;
        at_text = c;
        returns = rw (it, ui_objectlog_get_message) e;
        header = f ∙ ap (take 3) is_message;
        not_null = g;
        reads =
            ap (λ t. read_text t c) l
            ∙ r
            ∙ ap (λ t. some (drop (3 + offset) t)) is_message
            ∙ ap (λ t. some (drop t (message_hdr page_id kind channel ++ text)))
                {y = suc (suc (suc offset))} (omega arith);
      }

-- What a call of `ui_write_log` has done: it stored `bytes`, the header and the text, behind the
-- newest object of a log that holds the objects it did not drop.
pub record Logged (log : Objectlog) (older : List (List ℕ)) (newest : List ℕ)
    (page_id kind channel : ℕ) (text : List ℕ) : Type 0 where
  pub log2 : Objectlog
  pub dropped : ℕ
  pub bytes : List ℕ
  pub holds : Holds log2 (drop dropped older) newest
  pub is_message : bytes ≡ message_hdr page_id kind channel ++ text
  pub made :
      holds.front + holds.back + length (encode log2.ring.size 0 log2.ring.write_ptr bytes)
      ≤ log2.ring.size
  pub bound :
      length (encode log2.ring.size 0 log2.ring.write_ptr bytes)
      ≤ total_len log.ring.size log.ring.write_ptr (3 + length text)
  pub size_kept : log2.ring.size ≡ log.ring.size
  pub end_kept : log2.ring.write_ptr ≡ log.ring.write_ptr
  pub returns : ui_write_log page_id kind channel text log ≡ some (stored log2 bytes)

pub ui_write_log-Logged :
    {log : Objectlog} {older : List (List ℕ)} {newest : List ℕ} (h : Holds log older newest)
    (page_id kind channel : ℕ) (text : List ℕ)
    → 3 + length text + fragments (3 + length text) < 2 ^ 16 - 1
    → h.back + total_len log.ring.size log.ring.write_ptr (3 + length text) ≤ log.ring.size
    → Logged log older newest page_id kind channel text
unfolding ui_write_log
ui_write_log-Logged {log} h page_id kind channel text no_wrap fits =
    let sc = message_list page_id kind channel text in
    let split = flat_message page_id kind channel text in
    let size : length (flat sc) ≡ 3 + length text = ap length split ∙ omega arith in
    let some_data : 0 < length (flat sc) = omega (arith, size) in
    let no_wrap' : length (flat sc) + fragments (length (flat sc)) < 2 ^ 16 - 1 = rw size no_wrap in
    let fits' : h.back + total_len log.ring.size log.ring.write_ptr (length (flat sc))
        ≤ log.ring.size =
      rw size fits in
    let f = freed h sc some_data no_wrap' fits' in
    let same : total_len f.log'.ring.size f.log'.ring.write_ptr (length (flat sc))
        ≡ total_len log.ring.size log.ring.write_ptr (length (flat sc)) =
      ap₂ (λ a b. total_len a b (length (flat sc))) f.size_kept f.end_kept in
    let short =
      encode-le-total_len f.log'.ring.size f.log'.ring.write_ptr (flat sc) f.holds.not_tiny
        f.holds.valid.write_in no_wrap' (rw (same, f.size_kept) (omega (arith, fits'))) in
    record {
      log2 = f.log';
      dropped = f.dropped;
      bytes = flat sc;
      holds = f.holds;
      is_message = split;
      made = new_fits h sc some_data no_wrap' fits';
      bound = omega (arith, short, same, ap (total_len log.ring.size log.ring.write_ptr) size);
      size_kept = f.size_kept;
      end_kept = f.end_kept;
      returns = ap (Option.map (λ r. r.1)) (write_returns h sc some_data no_wrap' fits');
    }

-- A message that ui_write_log writes is found again: for a log that holds a queue of objects, a
-- text whose message, with the three bytes of its header, has an estimate that fits beside the
-- newest object and before the end of the storage, and an offset that is 0 or below the length of
-- the text, the log then holds the message as its newest object, and ui_objectlog_get_message for
-- the last number returns, gives the header, and gives a cursor from which a reader takes exactly
-- the text from the offset on.
pub ui_write_log-Shows :
    {log : Objectlog} {older : List (List ℕ)} {newest : List ℕ} (h : Holds log older newest)
    (page_id kind channel : ℕ) (text : List ℕ) (offset : ℕ) (hdr : Mem)
    → 3 + length text + fragments (3 + length text) < 2 ^ 16 - 1
    → h.back + total_len log.ring.size log.ring.write_ptr (3 + length text) ≤ log.ring.size
    → log.ring.write_ptr + total_len log.ring.size log.ring.write_ptr (3 + length text)
      ≤ log.ring.size
    → (offset ≡ 0) ⊎ (offset < length text)
    → (log' : Objectlog) × (n : ℕ) × (ui_write_log page_id kind channel text log ≡ some log')
      × Holds log' (drop n older ++ (newest ∷ [])) (message_hdr page_id kind channel ++ text)
      × Shows page_id kind channel
          (drop offset text)
          (ui_objectlog_get_message log' (pos (log'.num_entries - 1)) offset hdr)
ui_write_log-Shows {log} {older} {newest} h page_id kind channel text offset hdr no_wrap fits
      one_piece in_text =
    let l = ui_write_log-Logged h page_id kind channel text no_wrap fits in
    let some_data : 0 < length l.bytes = omega (arith, ap length l.is_message) in
    (
      stored l.log2 l.bytes,
      l.dropped,
      l.returns,
      subst (Holds (stored l.log2 l.bytes) (drop l.dropped older ++ (newest ∷ []))) l.is_message
          (stored-Holds l.holds l.bytes some_data l.made),
      stored-Shows l.holds l.bytes page_id kind channel text l.is_message l.made
          (omega (arith, l.bound, l.end_kept, l.size_kept, one_piece)) offset hdr in_text,
    )
