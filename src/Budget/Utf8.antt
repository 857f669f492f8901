-- ===== src/Budget/Utf8.antt =====
-- How much of a text `utf8_prefix` keeps (iperf_output_budget.c).
use iperf_swift.Prelude.{
  ℕ, zero, suc, ◌+◌, ◌≤◌, ◌≡◌, refl, Bool, true, false, Option, none, some, List, [], ◌∷◌,
  if◌then◌else◌, ltb, length, drop, length-drop, arith,
}
use iperf_swift.Output.Text.{lead_byte}
use iperf_swift.Budget.Text.{sequence, is_sequence, utf8_loop, utf8_valid}

-- the length that a first byte announces
sequence_lem : (c n bits minimum : ℕ) → sequence c ≡ some (n, bits, minimum) → (1 ≤ n) × (n ≤ 4)
unfolding sequence lead_byte
sequence_lem c n bits minimum e = ground arith

-- the end of a turn that took a whole sequence or stops
turn_lem :
    (cut whole short : Bool) (valid size : ℕ) (rest : Option ℕ) (v : ℕ)
    → (short ≡ true → size ≤ 3)
    → (short ≡ false
        → rest ≡ some v
        → (v ≤ valid + size) × (valid + size ≤ v + 3) × (cut ≡ false → v ≡ valid + size))
    → (if short then (if cut then some valid else none) else if whole then rest else none) ≡ some v
    → (v ≤ valid + size) × (valid + size ≤ v + 3) × (cut ≡ false → v ≡ valid + size)
turn_lem cut whole short valid size rest v few r e = ground arith

utf8_loop_lem :
    (fuel : ℕ) (cut : Bool) (valid : ℕ) (bytes : List ℕ) (v : ℕ)
    → utf8_loop fuel cut valid bytes ≡ some v
    → (v ≤ valid + length bytes)
      × (valid + length bytes ≤ v + 3)
      × (cut ≡ false → v ≡ valid + length bytes)
unfolding utf8_loop
utf8_loop_lem zero cut valid [] v e = ground arith
utf8_loop_lem (suc fuel) cut valid [] v e = ground arith
utf8_loop_lem zero cut valid (c ∷ cs) v e = absurd (ground arith)
utf8_loop_lem (suc fuel) cut valid (c ∷ cs) v e =
    turn (sequence c) refl e (λ n w h. utf8_loop_lem fuel cut (valid + n) (drop n (c ∷ cs)) w h)
  where
    turn :
        (q : Option (ℕ × ℕ × ℕ))
        → sequence c ≡ q
        → (let out : Option ℕ = elim q [
          | none ↦ none
          | some (n, bits, minimum) ↦
              let rest = utf8_loop fuel cut (valid + n) (drop n (c ∷ cs)) in
              if ltb (length (c ∷ cs)) n
              then (if cut then some valid else none)
              else if is_sequence n bits minimum (c ∷ cs)
              then rest
              else none
        ] in
            out ≡ some v)
        → ((n w : ℕ)
            → utf8_loop fuel cut (valid + n) (drop n (c ∷ cs)) ≡ some w
            → (w ≤ valid + n + length (drop n (c ∷ cs)))
              × (valid + n + length (drop n (c ∷ cs)) ≤ w + 3)
              × (cut ≡ false → w ≡ valid + n + length (drop n (c ∷ cs))))
        → (v ≤ valid + length (c ∷ cs))
          × (valid + length (c ∷ cs) ≤ v + 3)
          × (cut ≡ false → v ≡ valid + length (c ∷ cs))
    turn none s e ih = absurd (ground arith)
    turn (some (n, bits, minimum)) s e ih =
        let size = length (c ∷ cs) in
        let few = sequence_lem c n bits minimum s in
        turn_lem cut (is_sequence n bits minimum (c ∷ cs)) (ltb size n) valid size
          (utf8_loop fuel cut (valid + n) (drop n (c ∷ cs))) v (λ short. ground arith)
          (λ long h. let r = ih n v h in ground (arith, length-drop n (c ∷ cs))) e

pub utf8_valid_lem :
    (cut : Bool) (bytes : List ℕ) (v : ℕ)
    → utf8_valid cut bytes ≡ some v
    → (v ≤ length bytes) × (length bytes ≤ v + 3) × (cut ≡ false → v ≡ length bytes)
unfolding utf8_valid
utf8_valid_lem cut bytes v e = ground (arith, utf8_loop_lem (length bytes) cut 0 bytes v e)
