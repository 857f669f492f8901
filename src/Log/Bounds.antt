-- ===== src/Log/Bounds.antt =====
-- The limit of the logfile (iperf_bounded_log.c): it holds with any outcome of the stream's writes.
use iperf_swift.Prelude.{
  ℕ, zero, suc, ◌+◌, ◌-◌, ◌≤◌, ◌<◌, ◌≡◌, ◌≢◌, min, max, true, false, Option, some, List, [], ◌∷◌,
  arith, length, take, length-take, ltb, if◌then◌else◌,
}
use iperf_swift.Prelude.Words.{u64, u64_mod, sub_u64}
use iperf_swift.Log.{
  Sink, LogStatus, BoundedLog, tail_size_max, marker, marker_size, write_bytes, retain_prefix,
  bounded_write, utf8_prefix, write_marker, write_bounded, utf8_start,
}
use iperf_swift.Log.Open.{Wrapping, bounded_log_wrap, bounded_close}
use iperf_swift.Log.Tail.{
  size, GrowsWith, write_bytes-GrowsWith, write_bytes-Frame, file_bytes-write_bytes,
  retain_prefix-Retained,
}

-- The invariant of an open log: the file and the held-back tail fit under the limit together with
-- the room that is left, a log that could not be opened adds nothing to the `existing` bytes, and
-- the tail is full unless the log is cut. The counter stands for what the file holds: `before` are the
-- bytes in the stream before it was wrapped.
pub record IsBounded (existing before limit : ℕ) (log : BoundedLog) : Type 0 where
  pub limit_is : log.status.limit ≡ limit
  pub limit_in : log.status.limit < u64_mod
  pub capacity_in : log.capacity ≤ log.status.limit
  pub accepted_in : log.accepted ≤ log.capacity
  pub tail_in : length log.tail ≤ tail_size_max
  pub fits :
      log.status.open_errno ≡ 0
      → log.status.file_bytes + length log.tail + log.capacity ≤ log.status.limit + log.accepted
  pub unopened : log.status.open_errno ≢ 0 → log.status.file_bytes + length log.tail ≤ existing
  pub counted : log.status.file_bytes + before ≡ existing + size log.sink
  pub tail_full : log.status.truncated ≡ false → length log.tail ≡ min tail_size_max log.accepted

utf8_start-le : (bytes : List ℕ) (start : ℕ) → utf8_start bytes start ≤ start
unfolding utf8_start
utf8_start-le bytes zero = omega arith
utf8_start-le bytes (suc start) = ground (arith, utf8_start-le bytes start)

-- The prefix that is kept of the tail is not longer than it.
pub utf8_prefix-le : (bytes : List ℕ) → utf8_prefix bytes ≤ length bytes
unfolding utf8_prefix
utf8_prefix-le bytes = ground (arith, utf8_start-le bytes (length bytes - 1))

write_marker_fits :
    (log : BoundedLog)
    → marker_size ≤ length log.tail
    → log.status.file_bytes + length log.tail < u64_mod
    → ((write_marker log).status.file_bytes ≤ log.status.file_bytes + length log.tail)
      × ((write_marker log).tail ≡ [])
      × ((write_marker log).capacity ≡ log.capacity)
      × ((write_marker log).accepted ≡ log.accepted)
      × ((write_marker log).status.limit ≡ log.status.limit)
      × ((write_marker log).status.truncated ≡ true)
      × ((write_marker log).status.open_errno ≡ log.status.open_errno)
      × GrowsWith log (write_marker log)
unfolding write_marker
write_marker_fits log full h =
    let st = log.status in
    let log1 = record log { status = record st { truncated = true } } in
    let cut = take (length log.tail - marker_size) log.tail in
    let kept = take (utf8_prefix cut) log.tail in
    let log2 = write_bytes kept log1 in
    ground (
      arith,
      write_bytes-Frame kept log1,
      write_bytes-Frame marker log2,
      file_bytes-write_bytes kept log1,
      file_bytes-write_bytes marker log2,
      write_bytes-GrowsWith kept log1,
      write_bytes-GrowsWith marker log2,
      utf8_prefix-le cut,
      length-take (length log.tail - marker_size) log.tail,
      length-take (utf8_prefix cut) log.tail,
    )

-- The part of a write that reaches the tail or the file: the log is open and its capacity holds
-- the marker.
write_bounded-IsBounded :
    (existing before limit : ℕ) (bytes : List ℕ) (log : BoundedLog)
    → IsBounded existing before limit log
    → log.status.open_errno ≡ 0
    → log.status.truncated ≡ false
    → marker_size ≤ log.capacity
    → IsBounded existing before limit (write_bounded bytes log)
unfolding write_bounded
write_bounded-IsBounded existing before limit bytes log v o t room =
    let remaining = sub_u64 log.capacity log.accepted in
    let keep = if ltb (length bytes) remaining then length bytes else remaining in
    let log1 = retain_prefix (take keep bytes) log in
    let log2 = record log1 { accepted = u64 (log1.accepted + keep) } in
    ground (
      arith,
      retain_prefix-Retained (take keep bytes) log,
      length-take keep bytes,
      write_marker_fits log2,
    )

-- Any write keeps the invariant, whatever the stream does with it.
pub bounded_write-IsBounded :
    (existing before limit : ℕ) (bytes : List ℕ) (log : BoundedLog)
    → IsBounded existing before limit log
    → IsBounded existing before limit (bounded_write bytes log).0
unfolding bounded_write
bounded_write-IsBounded existing before limit bytes log v =
    ground (arith, write_bounded-IsBounded existing before limit bytes log v)

-- the calls that one user of the `FILE` makes: writes, then `fclose`
unfoldable pub write_all : List (List ℕ) → BoundedLog → BoundedLog
write_all [] log = log
write_all (bytes ∷ rest) log = write_all rest (bounded_write bytes log).0

pub write_all-IsBounded :
    (existing before limit : ℕ) (chunks : List (List ℕ)) (log : BoundedLog)
    → IsBounded existing before limit log
    → IsBounded existing before limit (write_all chunks log)
unfolding write_all
write_all-IsBounded existing before limit [] log v = v
write_all-IsBounded existing before limit (bytes ∷ rest) log v =
    write_all-IsBounded existing before limit rest (bounded_write bytes log).0
      (bounded_write-IsBounded existing before limit bytes log v)

-- A log that `iperf_bounded_log_wrap` returns satisfies the invariant.
pub bounded_log_wrap-IsBounded :
    (env : Wrapping) (sink : Option Sink) (existing : ℕ) (status : LogStatus) {st : LogStatus}
    {log : BoundedLog}
    → status.limit < u64_mod
    → bounded_log_wrap env sink existing status ≡ (st, some log)
    → IsBounded existing (size sink) status.limit log
unfolding bounded_log_wrap
bounded_log_wrap-IsBounded env sink existing status h e = ground arith

close-le :
    (existing before limit : ℕ) (fclose_error : Option ℕ) (log : BoundedLog)
    → existing < u64_mod
    → IsBounded existing before limit log
    → let closed = bounded_close fclose_error log in
      (closed.0.file_bytes ≤ max existing limit)
      × (closed.0.file_bytes + before ≡ existing + size closed.1)
unfolding bounded_close
close-le existing before limit fclose_error log x v = (
  ground (arith, file_bytes-write_bytes log.tail log, write_bytes-Frame log.tail log),
  ground (arith, write_bytes-GrowsWith log.tail log),
)

-- For a wrapped stream over a file of `existing` bytes, after any writes and the close, with any
-- outcome of the stream's writes: the file, which is its old bytes and those that reached it through
-- the stream since it was wrapped, has at most the larger of its limit and its old size, and the status
-- has exactly the file's size.
pub bounded_log-le :
    (env : Wrapping) (sink : Option Sink) (existing : ℕ) (status : LogStatus) {st : LogStatus}
    {log : BoundedLog} (chunks : List (List ℕ))
    → status.limit < u64_mod
    → existing < u64_mod
    → bounded_log_wrap env sink existing status ≡ (st, some log)
    → let closed = bounded_close env.fclose_error (write_all chunks log) in
      (existing + size closed.1 ≤ max existing status.limit + size sink)
      × (closed.0.file_bytes + size sink ≡ existing + size closed.1)
bounded_log-le env sink existing status {log = log} chunks h x e =
    let (bounded, counted) =
      close-le existing (size sink) status.limit env.fclose_error (write_all chunks log) x (
        write_all-IsBounded existing (size sink) status.limit chunks log
          (bounded_log_wrap-IsBounded env sink existing status h e)) in
    (omega arith, counted)
