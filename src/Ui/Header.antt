-- ===== src/Ui/Header.antt =====
-- The header of a message that lies in one piece, and the text behind it: `message_at`, the part of
-- `ui_objectlog_get_message` behind the iterator.
use mathlib.Core.Option
use fx_ip.Base.{
  List, Mem, [], ap, append-nil, arith, blit, drop, length, length-append, length-peek, peek,
  peek-blit, pos, refl, some, suc, sym, take, ℕ, ◌++◌, ◌+◌, ◌-◌, ◌<◌, ◌∙◌, ◌≡◌, ◌≤◌, ◌⊎◌, min,
}
use fx_ip.Objectlog.{Objectlog, fragment_len}
use fx_ip.Objectlog.Object.{Object, last, more}
use fx_ip.Objectlog.Read.{fragment_lem}
use fx_ip.Objectlog.Walk.{Object-pos}
use fx_ip.Ui.{Cursor, Message, behind_header, header_loop, message_at, skip_loop}
use fx_ip.Ui.Reading.{Reads, cursor, read_text, skip_loop_lem}

module _ (log : Objectlog) where
  -- The header is copied from a first fragment of three bytes or more.
  pub header_lem :
      (p n : ℕ) (hdr : Mem)
      → p < log.ring.size
      → fragment_len (log.ring.cell p) ≡ n
      → 3 ≤ n
      → header_loop 4 log (pos p) 0 hdr
        ≡ some (blit hdr 0 (peek log.ring.cell (p + 1) 3), 3, n, p + 1)
  unfolding header_loop
  header_lem p n hdr a whole h =
      let three : min 3 n ≡ 3 = omega arith in
      rw (fragment_lem log p n a whole, header_loop, three) refl

  take-peek :
      (p n : ℕ) (later : List ℕ)
      → 3 ≤ n
      → peek log.ring.cell p 3 ≡ take 3 (peek log.ring.cell p n ++ later)
  take-peek p n later h =
      ap (λ t. take 3 (peek log.ring.cell p t ++ later)) {x = suc (suc (suc (n - 3)))} (omega arith)

  -- The first bytes of an object stand in its first fragment.
  Object-header :
      {p k : ℕ} {d : List ℕ}
      → Object log.ring.size log.ring.cell p d k
      → 3 ≤ fragment_len (log.ring.cell p)
      → peek log.ring.cell (p + 1) 3 ≡ take 3 d
  Object-header {p} (last n a s c e f g) h =
      take-peek (p + 1) n [] (omega arith)
      ∙ ap (take 3) (append-nil (peek log.ring.cell (p + 1) n) ∙ sym f)
  Object-header {p} (more n k' later a s c e o f g) h =
      take-peek (p + 1) n later (omega arith) ∙ ap (take 3) (sym f)

  pub Object-length :
      {p k : ℕ} {d : List ℕ} → Object log.ring.size log.ring.cell p d k → length d < k
  Object-length {p} (last n a s c e f g) =
      omega (arith, ap length f, length-peek log.ring.cell (p + 1) n)
  Object-length {p} (more n k' later a s c e o f g) = omega (
    arith,
    ap length f,
    length-append {0} (peek log.ring.cell (p + 1) n) later,
    length-peek log.ring.cell (p + 1) n,
    Object-length o,
  )

  pub message_at_lem :
      (p k : ℕ) (d : List ℕ) (offset : ℕ) (hdr : Mem)
      → Object log.ring.size log.ring.cell p d k
      → p + k ≤ log.ring.size
      → 3 ≤ fragment_len (log.ring.cell p)
      → (offset ≡ 0) ⊎ (3 + offset < length d)
      → (m : Message) × (c : Cursor) × (message_at log (pos p) offset hdr ≡ some m)
        × (peek m.hdr 0 3 ≡ take 3 d)
        × (m.at_text ≡ some c)
        × (m.log ≡ log)
        × (read_text log c ≡ some (drop (3 + offset) d))
  unfolding message_at
  message_at_lem p k d offset hdr o fits h w =
      let r : Reads log (drop (3 + offset) d)
          (skip_loop (suc (suc log.ring.size)) log offset (cursor log p 3)) =
        skip_loop_lem log (suc (suc log.ring.size)) o fits 3 offset (omega arith) (omega arith) w in
      let n : ℕ = fragment_len (log.ring.cell p) in
      let start : behind_header (pos p) 3 (n, p + 1) ≡ cursor log p 3 =
        ap (λ x. record { iter = pos p; ptr = p + 1 + 3; length = x }) (omega arith) in
      (
        record {
          hdr = blit hdr 0 (peek log.ring.cell (p + 1) 3);
          at_text = some r.at_byte;
          log = log;
        },
        r.at_byte,
        rw (header_lem p n hdr (omega (arith, Object-pos o)) refl h, message_at)
            (ap
                (λ c.
                  Option.map
                    (λ t. record {
                      hdr = blit hdr 0 (peek log.ring.cell (p + 1) 3);
                      at_text = t;
                      log = log;
                    })
                    (skip_loop (suc (suc log.ring.size)) log offset c))
                start
              ∙ ap
                  (Option.map (λ t. record {
                    hdr = blit hdr 0 (peek log.ring.cell (p + 1) 3);
                    at_text = t;
                    log = log;
                  }))
                  r.returns),
        peek-blit hdr 0 (peek log.ring.cell (p + 1) 3) ∙ Object-header o h,
        refl,
        refl,
        r.reads,
      )
