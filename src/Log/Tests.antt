-- ===== src/Log/Tests.antt =====
-- A small logfile (iperf_bounded_log.c): 30 bytes, of which 2 are there before.
use mathlib.Core.List.{flatten}
use iperf_swift.Prelude.{
  ℕ, ◌+◌, ◌-◌, ◌≤◌, ◌≡◌, refl, max, true, false, Option, none, some, List, [], ◌∷◌, ltb, length,
  arith,
}
use iperf_swift.Log.{Sink, LogStatus, BoundedLog}
use iperf_swift.Log.Open.{Wrapping, bounded_log_wrap, wrap_capacity, bounded_close}
use iperf_swift.Log.Bounds.{write_all, bounded_log-le}
use iperf_swift.Log.Tail.{size}
use iperf_swift.Log.Expected.{expected}
use iperf_swift.Log.Refine.{bounded_log-expected}

abbrev env : Wrapping
env = record { calloc_ok = true; setvbuf_error = none; funopen_error = none; fclose_error = none }

abbrev sink : Option Sink
sink = some (record { content = []; outcomes = [] })

abbrev status : LogStatus
status = record {
  limit = 30;
  bytes_written = 0;
  file_bytes = 0;
  attempted = false;
  file_size_known = false;
  truncated = false;
  open_errno = 0;
  write_errno = 0;
  close_errno = 0;
}

abbrev opened : LogStatus
opened = record status { attempted = true; file_bytes = 2; file_size_known = true }

abbrev log : BoundedLog
log = record { sink = sink; status = opened; capacity = 28; accepted = 0; tail = [] }

abbrev chunks : List (List ℕ)
chunks =
    (65 ∷ 66 ∷ 67 ∷ 0xc3 ∷ 0xa4 ∷ 68 ∷ 69 ∷ 70 ∷ 71 ∷ 72 ∷ [])
    ∷ (65 ∷ 66 ∷ 67 ∷ 68 ∷ 69 ∷ 70 ∷ 71 ∷ 72 ∷ 73 ∷ 74 ∷ [])
    ∷ (65 ∷ 66 ∷ 67 ∷ 68 ∷ 69 ∷ 70 ∷ 71 ∷ 72 ∷ 73 ∷ 74 ∷ [])
    ∷ []

wrap_run : bounded_log_wrap env sink 2 status ≡ (opened, some log)
unfolding bounded_log_wrap wrap_capacity
wrap_run = refl

bounded_log-le_example :
    let closed = bounded_close env.fclose_error (write_all chunks log) in
    (2 + size closed.1 ≤ max 2 status.limit + size sink)
    × (closed.0.file_bytes + size sink ≡ 2 + size closed.1)
bounded_log-le_example =
    bounded_log-le env sink 2 status {st = opened} {log = log} chunks (omega arith) (omega arith)
      wrap_run

bounded_log-expected_example :
    let (closed, file, failed) = bounded_close env.fclose_error (write_all chunks log) in
    let capacity = status.limit - 2 in
    (file ≡ some (record { content = expected capacity (flatten chunks); outcomes = [] }))
    × (closed.file_bytes ≡ 2 + length (expected capacity (flatten chunks)))
    × (closed.truncated ≡ ltb capacity (length (flatten chunks)))
bounded_log-expected_example =
    bounded_log-expected env 2 status {st = opened} {log = log} chunks refl refl refl refl
      (omega arith) (omega arith) wrap_run
