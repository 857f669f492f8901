-- ===== src/Budget/Collected.antt =====
-- One text added to the collected output (iperf_output_budget.c): it holds all that was printed, or a
-- prefix that falls short of the limit by part of a UTF-8 sequence at most.
use iperf_swift.Prelude.{
  if_both, ℕ, ◌+◌, ◌-◌, ◌≤◌, ◌<◌, ◌≡◌, ◌≢◌, refl, ap, sym, ◌∙◌, min, inl, inr, Bool-cases, Bool,
  not, Option, none, some, List, ◌++◌, ltb, length, take, length-take, length-append, arith,
}
use iperf_swift.Prelude.Slices.{take-all, take-append_add, take-append_le, take-take}
use iperf_swift.Prelude.Words.{u64_mod, sub_u64}
use iperf_swift.Output.{complete, truncated, ServerOutput, invalid_data}
use iperf_swift.Output.Stream.{output_bytes, is_complete}
use iperf_swift.Budget.{discard_for, count_bytes}
use iperf_swift.Budget.Text.{utf8_valid, keep_text, append_text}
use iperf_swift.Budget.Utf8.{utf8_valid_lem}

-- The output after `all` was printed.
pub record Collects (limit : ℕ) (all : List ℕ) (o : ServerOutput) : Type 0 where
  pub counted : o.observed_bytes ≡ length all
  pub whole : o.state ≡ complete → (output_bytes o.value ≡ all) × (length all ≤ limit)
  pub cut :
      o.state ≡ truncated
      → (output_bytes o.value ≡ take (length (output_bytes o.value)) all)
        × (limit < length all)
        × (limit ≤ length (output_bytes o.value) + 3)

discard-Collects :
    (limit : ℕ) (all : List ℕ) (o : ServerOutput)
    → o.observed_bytes ≡ length all
    → Collects limit all (discard_for invalid_data o)
unfolding discard_for
discard-Collects limit all o e = ground arith

-- a prefix of what came before is one of what there is now
prefix_more :
    (bytes all more : List ℕ)
    → bytes ≡ take (length bytes) all
    → bytes ≡ take (length bytes) (all ++ more)
prefix_more bytes all more e =
    e
    ∙ sym (
        take-append_le all more (length bytes)
          (omega (arith, ap length e, length-take (length bytes) all)))

stopped-Collects :
    (limit : ℕ) (all bytes : List ℕ) (o : ServerOutput)
    → o.state ≢ complete
    → length all + length bytes < u64_mod
    → Collects limit all o
    → Collects limit (all ++ bytes) (count_bytes (length bytes) o)
unfolding count_bytes
stopped-Collects limit all bytes o stopped small c =
    ground (arith, length-append all bytes, prefix_more (output_bytes o.value) all bytes)

keep-Collects :
    (limit : ℕ) (all bytes : List ℕ) (o : ServerOutput) (valid : Option ℕ)
    → let available = limit - length all in
      let cut = ltb available (length bytes) in
      let room = take (min available (length bytes)) bytes in
      o.state ≡ complete
      → o.observed_bytes ≡ length (all ++ bytes)
      → output_bytes o.value ≡ all
      → length all ≤ limit
      → utf8_valid cut room ≡ valid
      → Collects limit (all ++ bytes) (keep_text cut room o valid)
unfolding keep_text
keep-Collects limit all bytes o none going counted same fits e =
    discard-Collects limit (all ++ bytes) o counted
keep-Collects limit all bytes o (some v) going counted same fits e =
    let available = limit - length all in
    let room = take (min available (length bytes)) bytes in
    let r = utf8_valid_lem (ltb available (length bytes)) room v e in
    let kept = output_bytes o.value ++ take v room in
    let kept_is : kept ≡ take (length all + v) (all ++ bytes) = rw same (
      ap (λ x. all ++ x)
        (take-take bytes v (min available (length bytes))
          (omega (arith, r.0, length-take (min available (length bytes)) bytes)))
      ∙ sym (take-append_add all bytes v)) in
    let size : length kept ≡ length all + v = omega (
      arith,
      ap length kept_is,
      length-take (length all + v) (all ++ bytes),
      length-append all bytes,
      r.0,
      length-take (min available (length bytes)) bytes,
    ) in
    let whole : length bytes ≤ available → kept ≡ all ++ bytes = λ room_left.
      kept_is
      ∙ take-all (all ++ bytes) (length all + v) (
          ground
            (arith, length-append all bytes, length-take (min available (length bytes)) bytes)) in
    let prefix : kept ≡ take (length kept) (all ++ bytes) =
      kept_is ∙ ap (λ n. take n (all ++ bytes)) (sym size) in
    elim (Bool-cases (ltb available (length bytes))) [
      | inl over ↦ rw over (record {
        counted = counted;
        whole = λ done. absurd (ground arith);
        cut = λ _. (
          prefix,
          ground (arith, length-append all bytes),
          ground (arith, size, r, length-take (min available (length bytes)) bytes),
        );
      })
      | inr fit ↦ rw fit (record {
        counted = counted;
        whole = λ _. (whole (ground arith), ground (arith, length-append all bytes));
        cut = λ done. absurd (ground arith);
      })
    ]

count_bytes_lem :
    (n : ℕ) (o : ServerOutput)
    → o.observed_bytes + n < u64_mod
    → count_bytes n o ≡ record o { observed_bytes = o.observed_bytes + n }
unfolding count_bytes
count_bytes_lem n o small = ground arith

-- One more text.
pub append_text-Collects :
    (limit : ℕ) (all bytes : List ℕ) (agrees : Bool) (o : ServerOutput)
    → length all + length bytes < u64_mod
    → limit < u64_mod
    → Collects limit all o
    → Collects limit (all ++ bytes) (append_text limit agrees bytes o)
unfolding append_text
append_text-Collects limit all bytes agrees o small narrow c =
    let counted = record o { observed_bytes = o.observed_bytes + length bytes } in
    let counted_is = count_bytes_lem (length bytes) o (omega (arith, c.counted)) in
    let total : o.observed_bytes + length bytes ≡ length (all ++ bytes) =
      omega (arith, c.counted, length-append all bytes) in
    if_both (Collects limit (all ++ bytes)) (not (is_complete o.state))
      (count_bytes (length bytes) o) _
      (λ stopped. stopped-Collects limit all bytes o (ground arith) small c)
      (λ going.
        let (same, fits) = c.whole (ground arith) in
        let available_is : sub_u64 limit (length (output_bytes o.value)) ≡ limit - length all =
          omega (arith, ap length same) in
        if_both (Collects limit (all ++ bytes)) (not agrees)
          (discard_for invalid_data (count_bytes (length bytes) o)) _
          (λ differs. rw counted_is (discard-Collects limit (all ++ bytes) counted total))
          (λ good.
            rw (counted_is, available_is)
              (keep-Collects limit all bytes counted _ (ground arith) total same fits refl)))
