-- ===== src/Budget/Printed.antt =====
-- All the texts that a server prints during a test (iperf_output_budget.c).
use mathlib.Core.List.{append_assoc, append-nil}
use iperf_swift.Prelude.{
  if_both, ℕ, ◌+◌, ◌<◌, ◌≡◌, ◌≢◌, refl, ap, subst, sym, inl, inr, Bool-cases, Bool, false, not,
  Option, none, some, List, [], ◌∷◌, ◌++◌, length, length-append, arith,
}
use iperf_swift.Prelude.Words.{u64_mod}
use iperf_swift.Output.{text, missing, ServerOutput, invalid_data}
use iperf_swift.Output.Stream.{is_complete}
use iperf_swift.Budget.{Budget, begin_collect, is_missing, reset, discard_for, count_bytes}
use iperf_swift.Budget.Text.{keep_text, append_text, append_format, collect_printf}
use iperf_swift.Budget.Collected.{Collects, append_text-Collects}

-- The calls of `iperf_printf` with these texts, with what the second formatting returns beside each.
unfoldable pub print_all : Bool → List (List ℕ × Bool) → Budget → Budget
unfolding collect_printf
print_all allocates [] b = b
print_all allocates ((bytes, agrees) ∷ texts) b =
    print_all allocates texts
      (collect_printf allocates none (record { whole = some bytes; agrees = agrees }) b)

-- all the bytes of the texts
abbrev pub printed : List (List ℕ × Bool) → List ℕ
printed [] = []
printed ((bytes, agrees) ∷ texts) = bytes ++ printed texts

-- The test after `all` was printed.
record HasPrinted (limit : ℕ) (all : List ℕ) (b : Budget) : Type 0 where
  pub collects : Collects limit all b.output
  pub fresh : b.output.state ≡ missing → all ≡ []
  pub limit_is : b.limit ≡ limit
  pub going : b.finalized ≡ false

begin-HasPrinted :
    (allocates : Bool) (limit : ℕ) (all : List ℕ) (b : Budget)
    → HasPrinted limit all b
    → let b' = (begin_collect allocates text b).0 in
      HasPrinted limit all b' × (b'.output.state ≢ missing)
unfolding begin_collect discard_for
begin-HasPrinted allocates limit all b h = elim (Bool-cases (is_missing b.output.state)) [
  | inl at_start ↦ let empty = h.fresh (ground arith) in ground (arith, empty, ap length empty)
  | inr later ↦ ground arith
]

keep_text_state :
    (cut : Bool) (bytes : List ℕ) (o : ServerOutput) (valid : Option ℕ)
    → o.state ≢ missing
    → (keep_text cut bytes o valid).state ≢ missing
unfolding keep_text discard_for
keep_text_state cut bytes o none h = ground arith
keep_text_state cut bytes o (some v) h = ground arith

count_bytes_state : (n : ℕ) (o : ServerOutput) → (count_bytes n o).state ≡ o.state
unfolding count_bytes
count_bytes_state n o = ground arith

append_text_state :
    (limit : ℕ) (agrees : Bool) (bytes : List ℕ) (o : ServerOutput)
    → o.state ≢ missing
    → (append_text limit agrees bytes o).state ≢ missing
unfolding append_text discard_for
append_text_state limit agrees bytes o h =
    let counted = count_bytes (length bytes) o in
    let same = count_bytes_state (length bytes) o in
    if_both (λ (x : ServerOutput). x.state ≢ missing) (not (is_complete o.state)) counted _
      (λ stopped. ground (arith, same))
      (λ going.
        if_both (λ (x : ServerOutput). x.state ≢ missing) (not agrees)
          (discard_for invalid_data counted) _ (λ differs. ground arith)
          (λ good. keep_text_state _ _ counted _ (ground (arith, same))))

print-HasPrinted :
    (allocates agrees : Bool) (limit : ℕ) (all bytes : List ℕ) (b : Budget)
    → length all + length bytes < u64_mod
    → limit < u64_mod
    → HasPrinted limit all b
    → HasPrinted limit
        (all ++ bytes)
        (collect_printf allocates none (record { whole = some bytes; agrees = agrees }) b)
unfolding collect_printf append_format
print-HasPrinted allocates agrees limit all bytes b small narrow h =
    let b' = (begin_collect allocates text b).0 in
    let (h', present) = begin-HasPrinted allocates limit all b h in
    let out = append_text-Collects limit all bytes agrees b'.output small narrow h'.collects in
    let out' =
      subst (λ l. Collects limit (all ++ bytes) (append_text l agrees bytes b'.output))
        (sym h'.limit_is) out in
    if_both (HasPrinted limit (all ++ bytes)) b.finalized b _
      (λ done. absurd (ground (arith, h.going)))
      (λ open_. record {
        collects = out';
        fresh =
            λ at_start. absurd (append_text_state b'.limit agrees bytes b'.output present at_start);
        limit_is = h'.limit_is;
        going = h'.going;
      })

print_all-HasPrinted :
    (allocates : Bool) (limit : ℕ) (texts : List (List ℕ × Bool)) (all : List ℕ) (b : Budget)
    → length (all ++ printed texts) < u64_mod
    → limit < u64_mod
    → HasPrinted limit all b
    → HasPrinted limit (all ++ printed texts) (print_all allocates texts b)
unfolding print_all
print_all-HasPrinted allocates limit [] all b small narrow h = rw append-nil h
print_all-HasPrinted allocates limit ((bytes, agrees) ∷ texts) all b small narrow h =
    let next = collect_printf allocates none (record { whole = some bytes; agrees = agrees }) b in
    let grouped = append_assoc all bytes (printed texts) in
    let first : HasPrinted limit (all ++ bytes) next =
      print-HasPrinted allocates agrees limit all bytes b
        (omega
          (arith, length-append all (bytes ++ printed texts), length-append bytes (printed texts)))
        narrow h in
    subst (λ x. HasPrinted limit x (print_all allocates texts next)) grouped
      (print_all-HasPrinted allocates limit texts (all ++ bytes) next
        (omega (arith, ap length grouped)) narrow first)

-- Texts printed on a reset server: all of their bytes are observed; while the output is complete it
-- is exactly the bytes printed, which fit under the limit; once it is truncated it is a prefix of
-- them, more than the limit were printed, and at most three bytes of the limit are left unused.
pub print_all-Collects :
    (allocates : Bool) (texts : List (List ℕ × Bool)) (b : Budget)
    → length (printed texts) < u64_mod
    → b.limit < u64_mod
    → Collects b.limit (printed texts) (print_all allocates texts (reset b)).output
unfolding reset
print_all-Collects allocates texts b small narrow =
    (print_all-HasPrinted allocates b.limit texts [] (reset b) small narrow (record {
      collects = ground arith;
      fresh = λ _. refl;
      limit_is = refl;
      going = refl;
    })).collects
