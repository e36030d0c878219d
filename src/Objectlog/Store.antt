-- ===== src/Objectlog/Store.antt =====
-- What `objectlog_write_scattered_object` does once there is room for the object.
use mathlib.Core.Option
use fx_ip.Base.{
  List, [], ap, arith, inl, length, length-append, refl, some, sym, ℕ, ◌%◌, ◌+◌, ◌<◌, ◌^◌, ◌∙◌, ◌∷◌,
  ◌≡◌,
}
use fx_ip.Ring.{Ring}
use fx_ip.Ring.Bulk.{write_all}
use fx_ip.Ring.Inv.{IsValid}
use fx_ip.Objectlog.{Objectlog, store_object, sum_lens, write_fuel, writer}
use fx_ip.Objectlog.Format.{encode, flat, room}
use fx_ip.Objectlog.Round.{IsWriting}
use fx_ip.Objectlog.Scatter.{entry_start, remaining_zero}
use fx_ip.Objectlog.Write.{extra-le, write_loop-encode}

pub sum_lens_mod :
    (n : ℕ) (sc : List (List ℕ)) → n < 2 ^ 16 → sum_lens n sc ≡ (n + length (flat sc)) % 2 ^ 16
unfolding sum_lens
sum_lens_mod n [] h = omega arith
sum_lens_mod n ([] ∷ later) h = omega arith
sum_lens_mod n ((x ∷ xs) ∷ later) h =
    sum_lens_mod ((n + length (x ∷ xs)) % 2 ^ 16) later (omega arith)
    ∙ omega (arith, length-append {0} (x ∷ xs) (flat later))

writer-IsWriting :
    {r : Ring} (sc : List (List ℕ))
    → IsValid r
    → 1 < r.size
    → IsWriting (writer r sc (length (flat sc))) (flat sc)
writer-IsWriting sc v h = record {
  valid = v;
  not_tiny = h;
  rest_is = sym (remaining_zero sc);
  counted = refl;
  inside = entry_start sc;
  fragment = inl refl;
  small = omega arith;
}

-- For a valid ring of two bytes or more, storing an object comes to an end, within the fuel: the
-- bytes of `encode` are appended to the ring, `ptr_last` is the place where they start, and one entry
-- more is counted.
pub store_object-encode :
    (log : Objectlog) (sc : List (List ℕ))
    → IsValid log.ring
    → 1 < log.ring.size
    → store_object sc (length (flat sc)) log
      ≡ some (record log {
        ring = write_all log.ring (encode log.ring.size 0 log.ring.write_ptr (flat sc));
        ptr_last = log.ring.write_ptr;
        num_entries = log.num_entries + 1;
      })
unfolding store_object
store_object-encode log sc v h =
    let (w, ends, is) =
      write_loop-encode (write_fuel (length (flat sc))) (writer-IsWriting sc v h)
        (omega (arith, extra-le 0 (room log.ring.size log.ring.write_ptr))) in
    ap
      (Option.map (λ w'. record log {
        ring = w'.ring;
        ptr_last = log.ring.write_ptr;
        num_entries = log.num_entries + 1;
      }))
      ends
    ∙ ap
        (λ r. some (record log {
          ring = r;
          ptr_last = log.ring.write_ptr;
          num_entries = log.num_entries + 1;
        }))
        is
