-- ===== src/Rate/Window.antt =====
-- The cyclic array holds the bytes of the last intervals, oldest first from behind the last index.
use iperf_swift.Prelude.{
  if_both, ℕ, ◌+◌, false, ◌&&◌, ◌||◌, ◌≡◌, ◌≢◌, refl, sym, ap, ◌∙◌, some, List, [], ◌∷◌, ◌++◌, ltb,
  leb, ◌==◌, length, length-append, take, arith,
}
use iperf_swift.Prelude.Slices.{take-append_left}
use iperf_swift.Prelude.Words.{u64}
use iperf_swift.Rate.{
  RateWindow, RateLimit, write_at, sum, next_index, judge, note_interval, check_total_rate,
}

write_at-append :
    (xs : List ℕ) (o v : ℕ) (ys : List ℕ)
    → write_at (length xs) v (xs ++ o ∷ ys) ≡ some (xs ++ v ∷ ys)
write_at-append [] o v ys = refl
write_at-append (x ∷ xs) o v ys = rw (write_at-append xs o v ys)

sum-append : (xs ys : List ℕ) → sum (xs ++ ys) ≡ sum xs + sum ys
sum-append [] ys = omega arith
sum-append (x ∷ xs) ys = omega (arith, sum-append xs ys)

-- The window holds a queue, oldest first: the entries behind the last index and then those up to it.
abbrev pub Holds : ℕ → List ℕ → RateWindow → Type 0
Holds k queue w =
    (front : List ℕ) × (back : List ℕ) × (spare : List ℕ) × (w.intervals ≡ front ++ (back ++ spare))
    × (queue ≡ back ++ front)
    × (length front ≡ w.last_index + 1)
    × (length front + length back ≡ k)

-- one interval leaves the queue and one enters it
abbrev pub slide : List ℕ → ℕ → List ℕ
slide [] v = []
slide (oldest ∷ queue) v = queue ++ v ∷ []

pub judge-intervals :
    (limit : RateLimit) (w : RateWindow)
    → ((judge limit w).intervals ≡ w.intervals)
      × ((judge limit w).last_index ≡ w.last_index)
      × ((judge limit w).stats_count ≡ w.stats_count)
judge-intervals limit w = ground arith

pub append_assoc : (xs ys zs : List ℕ) → (xs ++ ys) ++ zs ≡ xs ++ (ys ++ zs)
append_assoc [] ys zs = refl
append_assoc (x ∷ xs) ys zs = ap (λ r. x ∷ r) (append_assoc xs ys zs)

-- the bytes that the code adds up are those of the queue
sum-Holds :
    (k : ℕ) (queue : List ℕ) (w : RateWindow)
    → Holds k queue w
    → sum (take k w.intervals) ≡ sum queue
sum-Holds k queue w (front, back, spare, is_array, is_queue, size, total) =
    let whole : length (front ++ back) ≡ k = omega (arith, length-append front back) in
    let taken : take k w.intervals ≡ front ++ back =
      ap (take k) (is_array ∙ sym (append_assoc front back spare))
      ∙ (ap (λ n. take n ((front ++ back) ++ spare)) (sym whole)
          ∙ take-append_left (front ++ back) spare) in
    ap sum taken
    ∙ (omega (arith, sum-append front back, sum-append back front) ∙ ap sum (sym is_queue))

-- the write of one interval
write-Holds :
    (limit : RateLimit) (v : ℕ) (queue : List ℕ) (w : RateWindow)
    → Holds limit.stats_per_interval queue w
    → (intervals : List ℕ) × (write_at (next_index limit w.last_index) v w.intervals
        ≡ some intervals)
      × (Holds limit.stats_per_interval
          (slide queue v)
          (record w { intervals = intervals; last_index = next_index limit w.last_index }))
write-Holds limit v queue w ([], back, spare, is_array, is_queue, size, total) =
    absurd (ground arith)
write-Holds limit v queue w (f ∷ front, o ∷ back, spare, is_array, is_queue, size, total) =
    let on : next_index limit w.last_index ≡ length (f ∷ front) = ground arith in
    (
      (f ∷ front) ++ v ∷ (back ++ spare),
      rw (on, is_array) (write_at-append (f ∷ front) o v (back ++ spare)),
      (
        (f ∷ front) ++ v ∷ [],
        back,
        spare,
        sym (append_assoc (f ∷ front) (v ∷ []) (back ++ spare)),
        ap (λ q. slide q v) is_queue ∙ append_assoc back (f ∷ front) (v ∷ []),
        rw on (omega (arith, length-append (f ∷ front) (v ∷ []))),
        omega (arith, length-append (f ∷ front) (v ∷ [])),
      ),
    )
write-Holds limit v queue w (f ∷ front, [], spare, is_array, is_queue, size, total) =
    let on : next_index limit w.last_index ≡ 0 = ground arith in
    (
      v ∷ (front ++ spare),
      rw (on, is_array) refl,
      (v ∷ [], front, spare, refl, ap (λ q. slide q v) is_queue, rw on refl, omega arith),
    )

judge-Holds :
    (limit : RateLimit) (queue : List ℕ) (w : RateWindow)
    → Holds limit.stats_per_interval queue w
    → Holds limit.stats_per_interval queue (judge limit w)
judge-Holds limit queue w holds =
    if_both (Holds limit.stats_per_interval queue)
      (leb limit.stats_per_interval w.stats_count
        && ltb limit.bitrate_limit
            (limit.bits_per_second (u64 (sum (take limit.stats_per_interval w.intervals)))))
      _ _ (λ over. holds) (λ under. holds)

judge-exceeded :
    (limit : RateLimit) (w : RateWindow)
    → (judge limit w).exceeded ≡ (
        w.exceeded
        || (leb limit.stats_per_interval w.stats_count
            && ltb limit.bitrate_limit
                (limit.bits_per_second (u64 (sum (take limit.stats_per_interval w.intervals))))))
judge-exceeded limit w = ground arith

-- what one call does to the window and to the flag
pub call-Holds :
    (limit : RateLimit) (v : ℕ) (queue : List ℕ) (w : RateWindow)
    → limit.bitrate_limit ≢ 0
    → Holds limit.stats_per_interval queue w
    → (after : RateWindow) × (check_total_rate limit false v w ≡ some after)
      × Holds limit.stats_per_interval (slide queue v) after
      × (after.stats_count ≡ w.stats_count + 1)
      × (after.exceeded ≡ (
          w.exceeded
          || (leb limit.stats_per_interval (w.stats_count + 1)
              && ltb limit.bitrate_limit (limit.bits_per_second (u64 (sum (slide queue v)))))))
unfolding check_total_rate
call-Holds limit v queue w limited holds =
    let (intervals, is_written, written) = write-Holds limit v queue w holds in
    let tested = record w {
      intervals = intervals;
      last_index = next_index limit w.last_index;
      stats_count = w.stats_count + 1;
    } in
    let total = sum-Holds limit.stats_per_interval (slide queue v) tested written in
    let flag : limit.bitrate_limit == 0 ≡ false = ground arith in
    (
      note_interval limit w intervals,
      rw (check_total_rate, flag, is_written),
      judge-Holds limit (slide queue v) tested written,
      (judge-intervals limit tested).2,
      judge-exceeded limit tested
          ∙ ap
              (λ n.
                w.exceeded
                || (leb limit.stats_per_interval (w.stats_count + 1)
                    && ltb limit.bitrate_limit (limit.bits_per_second (u64 n))))
              total,
    )
