-- ===== src/Params/Accepted.antt =====
-- What `get_parameters` accepts: a test that it does not refuse has all its numbers in range.
use iperf_swift.Prelude.{
  codes, ◌≤◌, refl, ℕ, false, ◌≡◌, ◌≢◌, inl, inr, Option-cases, Option, none, some, List, [], ◌∷◌,
  arith,
}
use iperf_swift.Prelude.Int.{ℤ, pos, negsuc}
use iperf_swift.Errors.{Error}
use iperf_swift.Params.{IperfTest, Features}
use iperf_swift.Params.Receive.{
  Lookup, Run, Step, reset, number, number_flag, flag, text, on_test, guard, take_step, take_steps,
  get_number, between, not_negative, read_protocol, test_steps, gso_steps, rate_steps, text_steps,
  derive_gso, check_limits, check_test, read_test, get_parameters,
}

-- the guard lets the number through, if the object has it
abbrev Accepts : Lookup → Step → Type 0
Accepts j (number name accept e set) = (v : ℤ) → get_number j name ≡ some v → accept v ≢ none
Accepts j _ = Unit {0}

abbrev AcceptsAll : Lookup → List Step → Type 0
AcceptsAll j [] = Unit {0}
AcceptsAll j (step ∷ steps) = Accepts j step × AcceptsAll j steps

guard-Accepts :
    (accept : ℤ → Option ℕ) (e : Error) (set : ℕ → IperfTest → IperfTest) (v : ℤ) (run : Run)
    → (guard accept e set v run).failed ≡ false
    → (run.failed ≡ false) × (accept v ≢ none)
guard-Accepts accept e set v run h = elim (Option-cases (accept v)) [
  | inl bad ↦ absurd (grind arith)
  | inr (n, good) ↦ (grind arith, λ bad. grind arith)
]

-- A step that leaves the result good found it good and accepted its number.
take_step-Accepts :
    (j : Lookup) (step : Step) (run : Run)
    → (take_step j step run).failed ≡ false
    → (run.failed ≡ false) × Accepts j step
unfolding take_step
take_step-Accepts j (reset f) run h = (h, tt)
take_step-Accepts j (number name accept e set) run h = elim (Option-cases (get_number j name)) [
  | inl missing ↦ (grind arith, λ v found. absurd (grind arith))
  | inr (w, found) ↦
      let good = guard-Accepts accept e set w run (grind arith) in
      (good.0, λ v again bad. good.1 (grind arith))
]
take_step-Accepts j (number_flag name set) run h = (ground arith, tt)
take_step-Accepts j (flag name set) run h = (ground arith, tt)
take_step-Accepts j (text name set) run h = (ground arith, tt)

pub take_steps-AcceptsAll :
    (j : Lookup) (steps : List Step) (run : Run)
    → (take_steps j steps run).failed ≡ false
    → (run.failed ≡ false) × AcceptsAll j steps
unfolding take_steps
take_steps-AcceptsAll j [] run h = (h, tt)
take_steps-AcceptsAll j (step ∷ steps) run h =
    let rest = take_steps-AcceptsAll j steps (take_step j step run) h in
    let first = take_step-Accepts j step run rest.0 in (first.0, (first.1, rest.1))

check_limits-failed :
    (sys : Features) (run : Run) → (check_limits sys run).failed ≡ false → run.failed ≡ false
unfolding check_limits
check_limits-failed sys run h = ground arith

check_test-failed :
    (sys : Features) (run : Run) → (check_test sys run).failed ≡ false → run.failed ≡ false
unfolding check_test
check_test-failed sys run h = ground (arith, check_limits-failed sys run)

get_parameters-AcceptsAll :
    (sys : Features) (j : Lookup) (t : IperfTest)
    → (get_parameters sys (some j) t).failed ≡ false
    → AcceptsAll j (test_steps sys) × (AcceptsAll j gso_steps × AcceptsAll j rate_steps)
unfolding get_parameters read_test
get_parameters-AcceptsAll sys j t h =
    let started = read_protocol sys j (record { test = t; i_errno = none; failed = false }) in
    let tested = take_steps j (test_steps sys) started in
    let sized = take_steps j gso_steps tested in
    let rated = take_steps j rate_steps (on_test derive_gso sized) in
    let texts = take_steps-AcceptsAll j text_steps rated (
      check_test-failed sys (read_test sys j (record { test = t; i_errno = none; failed = false }))
        h) in
    let rates = take_steps-AcceptsAll j rate_steps (on_test derive_gso sized) texts.0 in
    let sizes = take_steps-AcceptsAll j gso_steps tested rates.0 in
    let tests = take_steps-AcceptsAll j (test_steps sys) started sizes.0 in
    (tests.1, (sizes.1, rates.1))

-- The keys of the numbers that have bounds, with the least and the greatest value.
abbrev pub bounds : List (List ℕ × ℕ × ℕ)
bounds =
    (codes "omit", 0, 600)
    ∷ (codes "server_affinity", 0, 1024)
    ∷ (codes "time", 0, 86400)
    ∷ (codes "MSS", 0, 32767)
    ∷ (codes "parallel", 1, 128)
    ∷ (codes "window", 0, 536870912)
    ∷ (codes "gro", 0, 1)
    ∷ (codes "burst", 1, 1000)
    ∷ (codes "TOS", 0, 255)
    ∷ []

-- the keys of the numbers that must not be negative
abbrev pub unsigned_keys : List (List ℕ)
unsigned_keys =
    codes "num"
    ∷ codes "blockcount"
    ∷ codes "len"
    ∷ codes "gso"
    ∷ codes "gso_dg_size"
    ∷ codes "gso_bf_size"
    ∷ codes "gro_bf_size"
    ∷ codes "bandwidth"
    ∷ codes "fqrate"
    ∷ codes "pacing_timer"
    ∷ []

-- a number that is there is one of the natural numbers from `low` to `high`
abbrev pub IsBetween : ℕ → ℕ → ℤ → Type 0
IsBetween low high v = (n : ℕ) × (v ≡ pos n) × (low ≤ n) × (n ≤ high)

abbrev pub AllBetween : Lookup → List (List ℕ × ℕ × ℕ) → Type 0
AllBetween j [] = Unit {0}
AllBetween j ((key, low, high) ∷ rest) =
    ((v : ℤ) → get_number j key ≡ some v → IsBetween low high v) × AllBetween j rest

abbrev pub AllUnsigned : Lookup → List (List ℕ) → Type 0
AllUnsigned j [] = Unit {0}
AllUnsigned j (key ∷ rest) =
    ((v : ℤ) → get_number j key ≡ some v → (n : ℕ) × (v ≡ pos n)) × AllUnsigned j rest

between-IsBetween : (low high : ℕ) (v : ℤ) → between low high v ≢ none → IsBetween low high v
between-IsBetween low high (negsuc n) h = absurd (h refl)
between-IsBetween low high (pos n) h = (n, refl, ground arith, ground arith)

not_negative-is : (v : ℤ) → not_negative v ≢ none → (n : ℕ) × (v ≡ pos n)
not_negative-is (negsuc n) h = absurd (h refl)
not_negative-is (pos n) h = (n, refl)

-- A test that `get_parameters` does not refuse came with an object in which every number, if it is
-- there, is within its bounds: 0 to 600 seconds to omit, 0 to 86400 seconds, 1 to 128 streams, and so
-- on for the nine keys of `bounds`, and not negative for the other ten. So any number outside makes it
-- fail.
pub get_parameters-AllBetween :
    (sys : Features) (j : Lookup) (t : IperfTest)
    → (get_parameters sys (some j) t).failed ≡ false
    → AllBetween j bounds × AllUnsigned j unsigned_keys
get_parameters-AllBetween sys j t h =
    let (
      (
        omit,
        (
          affinity,
          (
            time,
            (
              r1,
              (num, (r2, (blockcount, (mss, (f1, (parallel, (f2, (f3, (window, (len, e1)))))))))),
            ),
          ),
        ),
      ),
      ((gso, (dg, (bf, e2))), (gro, (gro_bf, (bandwidth, (fqrate, (pacing, (burst, (tos, e3)))))))),
    ) =
      get_parameters-AcceptsAll sys j t h in
    let within : (key : List ℕ) (low high : ℕ)
        → ((v : ℤ) → get_number j key ≡ some v → between low high v ≢ none)
        → (v : ℤ) → get_number j key ≡ some v
        → IsBetween low high v =
      λ key low high accepts v e. between-IsBetween low high v (accepts v e) in
    let natural : (key : List ℕ)
        → ((v : ℤ) → get_number j key ≡ some v → not_negative v ≢ none)
        → (v : ℤ) → get_number j key ≡ some v
        → (n : ℕ) × (v ≡ pos n) =
      λ key accepts v e. not_negative-is v (accepts v e) in
    (
      (
        within (codes "omit") 0 600 omit,
        (
          within (codes "server_affinity") 0 1024 affinity,
          (
            within (codes "time") 0 86400 time,
            (
              within (codes "MSS") 0 32767 mss,
              (
                within (codes "parallel") 1 128 parallel,
                (
                  within (codes "window") 0 536870912 window,
                  (
                    within (codes "gro") 0 1 gro,
                    (within (codes "burst") 1 1000 burst, (within (codes "TOS") 0 255 tos, tt)),
                  ),
                ),
              ),
            ),
          ),
        ),
      ),
      (
        natural (codes "num") num,
        (
          natural (codes "blockcount") blockcount,
          (
            natural (codes "len") len,
            (
              natural (codes "gso") gso,
              (
                natural (codes "gso_dg_size") dg,
                (
                  natural (codes "gso_bf_size") bf,
                  (
                    natural (codes "gro_bf_size") gro_bf,
                    (
                      natural (codes "bandwidth") bandwidth,
                      (
                        natural (codes "fqrate") fqrate,
                        (natural (codes "pacing_timer") pacing, tt),
                      ),
                    ),
                  ),
                ),
              ),
            ),
          ),
        ),
      ),
    )
