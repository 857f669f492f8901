-- ===== src/Rate/Average.antt =====
-- Which intervals the average is taken over, and where the array is too small for it.
use iperf_swift.Prelude.{
  ℕ, zero, suc, ◌+◌, ◌-◌, ◌≤◌, ◌<◌, false, ◌&&◌, ◌||◌, ◌≡◌, ◌≢◌, refl, sym, ap, subst, ◌∙◌, inl,
  inr, Bool-cases, none, some, List, [], ◌∷◌, ◌++◌, ltb, leb, ◌==◌, length, length-append, drop,
  arith,
}
use native.Mathlib.Nat.{suc-add}
use Prim.Native.Nat.add
use iperf_swift.Prelude.Words.{u64}
use iperf_swift.Rate.{
  RateWindow, RateLimit, write_at, sum, next_index, note_interval, check_total_rate,
  check_intervals, zeros, fresh_window,
}
use iperf_swift.Rate.Window.{Holds, slide, append_assoc, call-Holds, judge-intervals}

zeros-append : (m n : ℕ) → zeros m ++ zeros n ≡ zeros (m + n)
zeros-append zero n = rw (add.zero n)
zeros-append (suc m) n = rw suc-add (ap (λ r. 0 ∷ r) (zeros-append m n))

zeros-length : (n : ℕ) → length (zeros n) ≡ n
zeros-length zero = refl
zeros-length (suc n) = omega (arith, zeros-length n)

append_nil : (xs : List ℕ) → xs ++ [] ≡ xs
append_nil [] = refl
append_nil (x ∷ xs) = ap (λ r. x ∷ r) (append_nil xs)

-- a fresh window holds zeros
fresh-Holds : (k : ℕ) → k < 60 → Holds (suc k) (zeros k ++ 0 ∷ []) fresh_window
fresh-Holds k small =
    let all : k + (59 - k) ≡ 59 = omega arith in
    (
      0 ∷ [],
      zeros k,
      zeros (59 - k),
      ap (λ r. 0 ∷ r) (sym (zeros-append k (59 - k) ∙ ap zeros all)),
      refl,
      refl,
      omega (arith, zeros-length k),
    )

-- the queue after the calls of some intervals
run-Holds :
    (limit : RateLimit) (intervals : List ℕ) (queue : List ℕ) (w : RateWindow)
    → limit.bitrate_limit ≢ 0
    → length queue ≡ limit.stats_per_interval
    → 1 ≤ length queue
    → Holds limit.stats_per_interval queue w
    → (after : RateWindow) × (check_intervals limit intervals w ≡ some after)
      × Holds limit.stats_per_interval (drop (length intervals) (queue ++ intervals)) after
      × (after.stats_count ≡ w.stats_count + length intervals)
unfolding check_intervals
run-Holds limit [] queue w limited size some_size holds = (
  w,
  refl,
  subst (λ q. Holds limit.stats_per_interval q w) (sym (append_nil queue)) holds,
  omega arith,
)
run-Holds limit (v ∷ intervals) [] w limited size some_size holds = absurd (omega arith)
run-Holds limit (v ∷ intervals) (oldest ∷ queue) w limited size some_size holds =
    let (now, goes, held, counts, flag) = call-Holds limit v (oldest ∷ queue) w limited holds in
    let (after, run, rest, total) =
      run-Holds limit intervals (queue ++ v ∷ []) now limited
        (omega (arith, length-append queue (v ∷ []))) (omega (arith, length-append queue (v ∷ [])))
        held in
    (
      after,
      rw (check_intervals, goes) run,
      subst (λ q. Holds limit.stats_per_interval (drop (length intervals) q) after)
          (append_assoc queue (v ∷ []) intervals) rest,
      omega arith,
    )

-- the last `k` entries of the intervals, with zeros before the first
abbrev pub last_of : ℕ → List ℕ → List ℕ
last_of k intervals = drop (length intervals) (zeros k ++ intervals)

slide-drop :
    (n : ℕ) (xs : List ℕ) (v : ℕ)
    → n < length xs
    → slide (drop n xs) v ≡ drop (suc n) (xs ++ v ∷ [])
slide-drop zero [] v some_left = absurd (omega arith)
slide-drop zero (x ∷ xs) v some_left = refl
slide-drop (suc n) [] v some_left = absurd (omega arith)
slide-drop (suc n) (x ∷ xs) v some_left = slide-drop n xs v (omega arith)

slide-last_of :
    (k : ℕ) (intervals : List ℕ) (v : ℕ)
    → 1 ≤ k
    → slide (last_of k intervals) v ≡ last_of k (intervals ++ v ∷ [])
slide-last_of k intervals v some_size =
    let size : length (intervals ++ v ∷ []) ≡ suc (length intervals) =
      omega (arith, length-append intervals (v ∷ [])) in
    slide-drop (length intervals) (zeros k ++ intervals) v
      (omega (arith, length-append (zeros k) intervals, zeros-length k))
    ∙ (ap (drop (suc (length intervals))) (append_assoc (zeros k) intervals (v ∷ []))
        ∙ ap (λ n. drop n (zeros k ++ (intervals ++ v ∷ []))) (sym size))

zeros-Holds : (k : ℕ) → 1 ≤ k → k ≤ 60 → Holds k (zeros k) fresh_window
zeros-Holds zero some_size small = absurd (omega arith)
zeros-Holds (suc k) some_size small =
    let one_more : k + 1 ≡ suc k = omega arith in
    subst (λ q. Holds (suc k) q fresh_window) (zeros-append k 1 ∙ ap zeros one_more)
      (fresh-Holds k (omega arith))

-- The average covers the last intervals: for a limit with 1 to 60 intervals for an average, whatever
-- the intervals of a test before the last, no write goes outside the array, and the last call sets the
-- flag if and only if it was set or there were as many intervals as the average takes and the rate
-- of the bytes of exactly the last of them is above the limit.
pub check_intervals-last :
    (limit : RateLimit) (intervals : List ℕ) (v : ℕ)
    → limit.bitrate_limit ≢ 0
    → 1 ≤ limit.stats_per_interval
    → limit.stats_per_interval ≤ 60
    → (before : RateWindow) × (after : RateWindow) × (check_intervals limit intervals fresh_window
        ≡ some before)
      × (check_total_rate limit false v before ≡ some after)
      × (after.exceeded ≡ (
          before.exceeded
          || (leb limit.stats_per_interval (length intervals + 1)
              && ltb limit.bitrate_limit (
                  limit.bits_per_second
                    (u64 (sum (last_of limit.stats_per_interval (intervals ++ v ∷ []))))))))
check_intervals-last limit intervals v limited some_size small =
    let k = limit.stats_per_interval in
    let (before, run, held, count) =
      run-Holds limit intervals (zeros k) fresh_window limited (zeros-length k)
        (omega (arith, zeros-length k)) (zeros-Holds k some_size small) in
    let (after, goes, rest, total, flag) =
      call-Holds limit v (last_of k intervals) before limited held in
    let counted : before.stats_count ≡ length intervals = omega arith in
    (
      before,
      after,
      run,
      goes,
      flag
          ∙ ap
              (λ n.
                before.exceeded
                || (leb k (n + 1)
                    && ltb limit.bitrate_limit
                        (limit.bits_per_second (u64 (sum (slide (last_of k intervals) v))))))
              counted
          ∙ ap
              (λ q.
                before.exceeded
                || (leb k (length intervals + 1)
                    && ltb limit.bitrate_limit (limit.bits_per_second (u64 (sum q)))))
              (slide-last_of k intervals v some_size),
    )

write_at-fails : (xs : List ℕ) (i v : ℕ) → length xs ≤ i → write_at i v xs ≡ none
write_at-fails [] i v h = refl
write_at-fails (x ∷ xs) zero v h = absurd (omega arith)
write_at-fails (x ∷ xs) (suc i) v h = rw (write_at-fails xs i v (omega arith))

write_at-length :
    (xs : List ℕ) (i v : ℕ)
    → i < length xs
    → (ys : List ℕ) × (write_at i v xs ≡ some ys) × (length ys ≡ length xs)
write_at-length [] i v h = absurd (omega arith)
write_at-length (x ∷ xs) zero v h = (v ∷ xs, refl, refl)
write_at-length (x ∷ xs) (suc i) v h =
    let (ys, is_written, size) = write_at-length xs i v (omega arith) in
    (x ∷ ys, rw is_written, omega arith)

run-leaves :
    (limit : RateLimit) (intervals : List ℕ) (w : RateWindow)
    → limit.bitrate_limit ≢ 0
    → 60 < limit.stats_per_interval
    → length w.intervals ≡ 60
    → w.last_index < 60
    → w.last_index + length intervals ≡ 60
    → check_intervals limit intervals w ≡ none
unfolding check_intervals check_total_rate
run-leaves limit [] w limited large size inside total = absurd (omega arith)
run-leaves limit (v ∷ intervals) w limited large size inside total =
    let flag : limit.bitrate_limit == 0 ≡ false = ground arith in
    let on : next_index limit w.last_index ≡ w.last_index + 1 = ground arith in
    elim (Bool-cases (ltb (w.last_index + 1) 60)) [
      | inl room ↦
          let (ys, is_written, kept) =
            write_at-length w.intervals (w.last_index + 1) v (ground arith) in
          let same = judge-intervals limit (record w {
            intervals = ys;
            last_index = next_index limit w.last_index;
            stats_count = w.stats_count + 1;
          }) in
          let index : (note_interval limit w ys).last_index ≡ w.last_index + 1 = same.1 ∙ on in
          rw (check_intervals, check_total_rate, flag, on, is_written)
            (run-leaves limit intervals (note_interval limit w ys) limited large
              (ap length same.0 ∙ (kept ∙ size)) (ground arith) (ground arith))
      | inr full ↦ rw (
        check_intervals,
        check_total_rate,
        flag,
        on,
        write_at-fails w.intervals (w.last_index + 1) v (ground arith),
      )
    ]

-- With more than 60 intervals for an average, the 60th interval of a test is written outside the array.
pub check_intervals_leaves :
    (limit : RateLimit) (intervals : List ℕ)
    → limit.bitrate_limit ≢ 0
    → 60 < limit.stats_per_interval
    → length intervals ≡ 60
    → check_intervals limit intervals fresh_window ≡ none
check_intervals_leaves limit intervals limited large size =
    run-leaves limit intervals fresh_window limited large (zeros-length 60) (omega arith)
      (omega arith)
