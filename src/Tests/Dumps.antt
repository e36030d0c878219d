-- ===== src/Tests/Dumps.antt =====
-- Tests of src/log.c and src/hayes.c.
use fx_ip.Base.{List, [], arith, none, refl, some, take, blit, ℕ, ◌++◌, ◌∷◌, ◌≡◌}
use fx_ip.Hayes.{ReadRound, hayes_read, returned}
use fx_ip.Hayes.Reply.{Gives, done, idle, read, hayes_read-reply}
use fx_ip.Log.{fxip_print_hexdump}
use fx_ip.Log.Digits.{AllShort, fxip_print_hexdump-read, read_dump}

abbrev nine : List ℕ
nine = 0xDE ∷ 0xAD ∷ 0xBE ∷ 0xEF ∷ 0 ∷ 1 ∷ 2 ∷ 3 ∷ 4 ∷ []

fxip_print_hexdump-read_example :
    (read_dump (fxip_print_hexdump nine) ≡ nine) × AllShort (fxip_print_hexdump nine)
fxip_print_hexdump-read_example = fxip_print_hexdump-read nine (omega arith)

-- the echo 65, and the answer 79 75
abbrev rounds : List ReadRound
rounds =
    record { byte = some 65; now = 100 }
    ∷ record { byte = none; now = 105 }
    ∷ record { byte = some 10; now = 110 }
    ∷ record { byte = some 79; now = 115 }
    ∷ record { byte = some 75; now = 119 }
    ∷ record { byte = some 10; now = 120 }
    ∷ []

rounds-Gives : Gives 100 20 rounds ((65 ∷ []) ++ (10 ∷ ((79 ∷ 75 ∷ []) ++ (10 ∷ []))))
rounds-Gives = read 65 100 _ (10 ∷ 79 ∷ 75 ∷ 10 ∷ []) refl refl refl (
    idle 105 _ refl refl (
      read 10 110 _ (79 ∷ 75 ∷ 10 ∷ []) refl refl refl (
        read 79 115 _ (75 ∷ 10 ∷ []) refl refl refl (
          read 75 119 _ (10 ∷ []) refl refl refl
            (read 10 120 [] [] refl refl refl (done refl refl))))))

hayes_read-reply_example :
    hayes_read (λ i. 0) (λ i. 0) 128 20 0 100 rounds
    ≡ returned 1 (blit (λ i. 0) 0 (take 128 (79 ∷ 75 ∷ 10 ∷ 0 ∷ [])))
hayes_read-reply_example =
    hayes_read-reply (λ i. 0) (λ i. 0) 128 20 100 (65 ∷ []) (79 ∷ 75 ∷ []) rounds-Gives
      (omega arith) (omega arith)
