-- ===== src/Certificate/Serial.antt =====
-- The loop of `randomSerial`.
use local_tls.Base.{ℕ, ◌<◌, ◌≡◌, ◌≢◌, List, [], ◌∷◌, ◌==◌, ◌⊎◌, inl, inr, Bool-cases, ==_iff, arith}
use local_tls.Errors.{Outcome, ok, err}
use local_tls.Certificate.{set_bytes, draw_serial}

-- A read that ends the loop with a serial stands somewhere ahead of every failing read.
abbrev pub Supplies : List (Outcome (List ℕ)) → Type 0
Supplies [] = ⊥
Supplies (err e ∷ reads) = ⊥
Supplies (ok bytes ∷ reads) = (set_bytes bytes ≢ 0) ⊎ Supplies reads

-- A serial number that `randomSerial` returns is positive.
pub draw_serial_pos :
    (reads : List (Outcome (List ℕ))) (n : ℕ) → (draw_serial reads).0 ≡ ok n → 0 < n
unfolding draw_serial
draw_serial_pos [] n h = cc
draw_serial_pos (err e ∷ reads) n h = cc
draw_serial_pos (ok bytes ∷ reads) n h = ground (arith, draw_serial_pos reads n)

-- The loop ends with a positive serial as soon as a read that is not all zeros comes up before a
-- read that fails.
pub draw_serial_total :
    (reads : List (Outcome (List ℕ)))
    → Supplies reads
    → (n : ℕ) × ((draw_serial reads).0 ≡ ok n) × (0 < n)
unfolding draw_serial
draw_serial_total [] s = absurd s
draw_serial_total (err e ∷ reads) s = absurd s
draw_serial_total (ok bytes ∷ reads) s = elim (Bool-cases (set_bytes bytes == 0)) [
  | inl zeros ↦
      rw zeros
        (draw_serial_total reads (elim s [ inl n ↦ absurd (n ((==_iff _ _).0 zeros)) | inr r ↦ r ]))
  | inr more ↦ (set_bytes bytes, rw more, ground arith)
]
