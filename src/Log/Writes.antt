-- ===== src/Log/Writes.antt =====
-- The branches of a write of iperf_bounded_log.c: one that fits, one that overruns, one that is ignored.
use iperf_swift.Prelude.{
  ℕ, ◌+◌, ◌-◌, ◌≤◌, ◌<◌, ◌≡◌, refl, true, false, List, [], ◌∷◌, ◌++◌, ap, ◌∙◌, sym, arith, length,
  take, length-take, length-append,
}
use mathlib.Core.List.{append-nil}
use iperf_swift.Prelude.Slices.{take-all, take-append_add}
use iperf_swift.Prelude.Words.{u64, u64_mod}
use iperf_swift.Log.{
  BoundedLog, marker, marker_size, write_bytes, retain_prefix, write_marker, bounded_write,
  write_bounded, utf8_prefix,
}
use iperf_swift.Log.Bounds.{utf8_prefix-le}
use iperf_swift.Log.Tail.{write_bytes-Frame}
use iperf_swift.Log.Content.{IsHealthy, write_bytes-IsHealthy, flushed}
use iperf_swift.Log.Expected.{
  cut_stream, Keeps, IsCut, length-Keeps, retain-Keeps, cut_content, cut_stream-take,
}

write_marker-IsCut :
    (existing capacity : ℕ) (content all : List ℕ) (log : BoundedLog)
    → Keeps existing capacity content all log
    → existing + capacity < u64_mod
    → marker_size ≤ capacity
    → length all ≡ capacity
    → IsCut existing (cut_stream capacity all ++ marker) (write_marker log)
unfolding write_marker
write_marker-IsCut existing capacity content all log k small m full =
    let st = log.status in
    let log1 = record log { status = record st { truncated = true } } in
    let kept = take (utf8_prefix (take (length log.tail - marker_size) log.tail)) log.tail in
    let content_is =
      cut_content capacity content log.tail m (omega (arith, length-Keeps k))
        (omega (arith, k.tail_full))
      ∙ ap (cut_stream capacity) k.bytes in
    let h = k.healthy in
    let h1 : IsHealthy existing content log1 = record {
      stream = h.stream;
      no_error = h.no_error;
      counted = h.counted;
    } in
    let p-le = utf8_prefix-le (take (length log.tail - marker_size) log.tail) in
    let h2 = write_bytes-IsHealthy existing kept content log1 h1 (
      omega (
        arith,
        length-Keeps k,
        k.tail_full,
        p-le,
        length-take (utf8_prefix (take (length log.tail - marker_size) log.tail)) log.tail,
        length-take (length log.tail - marker_size) log.tail,
      )) in
    let h3 = write_bytes-IsHealthy existing marker (content ++ kept) (write_bytes kept log1) h2 (
      omega (
        arith,
        length-Keeps k,
        k.tail_full,
        p-le,
        length-take (utf8_prefix (take (length log.tail - marker_size) log.tail)) log.tail,
        length-take (length log.tail - marker_size) log.tail,
        length-append content kept,
      )) in
    record {
      healthy =
          rw (← content_is)
            (record { stream = h3.stream; no_error = h3.no_error; counted = h3.counted });
      emptied = refl;
      cut =
          (write_bytes-Frame marker (write_bytes kept log1)).same_truncated
          ∙ (write_bytes-Frame kept log1).same_truncated;
    }

-- the log after `retain_prefix`, with the bytes that it took counted
abbrev taken : List ℕ → BoundedLog → BoundedLog
taken bytes log =
    let log1 = retain_prefix bytes log in
    record log1 { accepted = u64 (log1.accepted + length bytes) }

module _ (bytes : List ℕ) (log : BoundedLog) (opened : log.status.open_errno ≡ 0)
    (healthy : log.status.write_errno ≡ 0) (going : log.status.truncated ≡ false)
    (m : marker_size ≤ log.capacity) (a : log.accepted ≤ log.capacity)
    (small : log.capacity < u64_mod) where
  write_over :
      log.capacity < log.accepted + length bytes
      → (bounded_write bytes log).0
        ≡ write_marker (taken (take (log.capacity - log.accepted) bytes) log)
  unfolding bounded_write write_bounded
  write_over over = ground (arith, length-take (log.capacity - log.accepted) bytes)

  write_fit :
      0 < length bytes
      → log.accepted + length bytes ≤ log.capacity
      → (bounded_write bytes log).0 ≡ taken bytes log
  unfolding bounded_write write_bounded
  write_fit some_bytes room = ground (arith, take-all bytes (length bytes))

-- A write that overruns the capacity.
pub write-IsCut :
    (existing capacity : ℕ) (content all bytes : List ℕ) (log : BoundedLog)
    → Keeps existing capacity content all log
    → existing + capacity < u64_mod
    → marker_size ≤ capacity
    → capacity < length all + length bytes
    → IsCut existing (cut_stream capacity (all ++ bytes) ++ marker) (bounded_write bytes log).0
write-IsCut existing capacity content all bytes log k small m over =
    let keep = capacity - length all in
    let prefix = take keep bytes in
    let k1 =
      retain-Keeps existing capacity content all prefix log k small
        (omega (arith, length-take keep bytes, k.fits)) in
    let whole : all ++ prefix ≡ take capacity (all ++ bytes) =
      sym (take-append_add all bytes keep) ∙ ap (λ n. take n (all ++ bytes)) (omega arith) in
    let stream_is = ap (cut_stream capacity) whole ∙ cut_stream-take capacity (all ++ bytes) in
    let c =
      write_marker-IsCut existing capacity (flushed content prefix log.tail) (all ++ prefix)
        (taken prefix log) k1 small m
        (omega (arith, length-append all prefix, length-take keep bytes)) in
    let keep_is : log.capacity - log.accepted ≡ keep = omega arith in
    let equal =
      write_over bytes log k.opened k.healthy.no_error k.going (omega arith) (omega arith)
        (omega arith) (omega arith)
      ∙ ap (λ n. write_marker (taken (take n bytes) log)) keep_is in
    rw (← stream_is, equal) c

-- A write that fits.
pub write-Keeps :
    (existing capacity : ℕ) (content all bytes : List ℕ) (log : BoundedLog)
    → Keeps existing capacity content all log
    → existing + capacity < u64_mod
    → marker_size ≤ capacity
    → length all + length bytes ≤ capacity
    → (content' : List ℕ) × Keeps existing capacity content'
        (all ++ bytes)
        (bounded_write bytes log).0
unfolding bounded_write
write-Keeps existing capacity content all [] log k small m room = (content, rw append-nil k)
write-Keeps existing capacity content all (b ∷ bytes) log k small m room = (
  flushed content (b ∷ bytes) log.tail,
  rw
      (write_fit (b ∷ bytes) log k.opened k.healthy.no_error k.going (omega arith) (omega arith)
        (omega arith) (omega arith) (omega arith))
      (retain-Keeps existing capacity content all (b ∷ bytes) log k small room),
)

-- A log that is cut ignores what follows.
pub write_of_IsCut :
    (existing : ℕ) (content bytes : List ℕ) (log : BoundedLog)
    → IsCut existing content log
    → (bounded_write bytes log).0 ≡ log
unfolding bounded_write
write_of_IsCut existing content bytes log c = ground arith
