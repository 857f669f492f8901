-- ===== src/Log/Refine.antt =====
-- A working log (iperf_bounded_log.c) against what it promises: the file gains the whole stream of
-- its writes, or as much as leaves room for the truncation marker, cut between UTF-8 sequences.
use iperf_swift.Prelude.{
  ℕ, ◌+◌, ◌-◌, ◌≤◌, ◌<◌, ◌≡◌, min, false, Option, none, some, List, [], ◌∷◌, ◌++◌, ap, ◌∙◌, sym,
  arith, length, take, drop, length-take, length-drop, length-append, ltb, leb, ◌⊎◌, inl, inr,
  Bool-cases,
}
use mathlib.Core.List.{append_assoc, append-nil, flatten}
use iperf_swift.Prelude.Slices.{take-append_le}
use iperf_swift.Prelude.Words.{u64_mod}
use iperf_swift.Log.{LogStatus, BoundedLog, marker, marker_size, bounded_write, utf8_prefix}
use iperf_swift.Log.Bounds.{utf8_prefix-le, write_all}
use iperf_swift.Log.Open.{Wrapping, bounded_log_wrap, bounded_close}
use iperf_swift.Log.Tail.{write_bytes-Frame}
use iperf_swift.Log.Content.{IsHealthy, write_bytes-IsHealthy}
use iperf_swift.Log.Expected.{cut_stream, expected, Keeps, IsCut, length-Keeps, cut_stream-take}
use iperf_swift.Log.Writes.{write-IsCut, write-Keeps, write_of_IsCut}

-- A log after the writes of `stream`, in either case.
abbrev Ends : ℕ → ℕ → List ℕ → BoundedLog → Type 0
Ends existing capacity stream log =
    ((content : List ℕ) × Keeps existing capacity content stream log)
    ⊎ ((capacity < length stream) × IsCut existing (cut_stream capacity stream ++ marker) log)

cut_stream-append :
    (capacity : ℕ) (stream more : List ℕ)
    → capacity ≤ length stream
    → cut_stream capacity (stream ++ more) ≡ cut_stream capacity stream
cut_stream-append capacity stream more h =
    sym (cut_stream-take capacity (stream ++ more))
    ∙ ap (cut_stream capacity) (take-append_le stream more capacity h)
    ∙ cut_stream-take capacity stream

write-Ends :
    (existing capacity : ℕ) (stream bytes : List ℕ) (log : BoundedLog)
    → existing + capacity < u64_mod
    → marker_size ≤ capacity
    → Ends existing capacity stream log
    → Ends existing capacity (stream ++ bytes) (bounded_write bytes log).0
write-Ends existing capacity stream bytes log small m (inl (content, k)) =
    elim (Bool-cases (leb (length stream + length bytes) capacity)) [
      | inl fits ↦
          inl (write-Keeps existing capacity content stream bytes log k small m (ground arith))
      | inr over ↦ inr (
        ground (arith, length-append stream bytes),
        write-IsCut existing capacity content stream bytes log k small m (ground arith),
      )
    ]
write-Ends existing capacity stream bytes log small m (inr (over, c)) = inr (
  omega (arith, length-append stream bytes),
  rw
      (
        cut_stream-append capacity stream bytes (omega arith),
        write_of_IsCut existing (cut_stream capacity stream ++ marker) bytes log c,
      )
      c,
)

write_all-Ends :
    (existing capacity : ℕ) (chunks : List (List ℕ)) (stream : List ℕ) (log : BoundedLog)
    → existing + capacity < u64_mod
    → marker_size ≤ capacity
    → Ends existing capacity stream log
    → Ends existing capacity (stream ++ flatten chunks) (write_all chunks log)
unfolding write_all flatten
write_all-Ends existing capacity [] stream log small m e = rw append-nil e
write_all-Ends existing capacity (bytes ∷ chunks) stream log small m e = rw (← append_assoc) (
    write_all-Ends existing capacity chunks (stream ++ bytes) (bounded_write bytes log).0 small m
      (write-Ends existing capacity stream bytes log small m e))

-- The cut leaves room for the marker.
pub cut_stream-le :
    (capacity : ℕ) (stream : List ℕ) → length (cut_stream capacity stream) ≤ capacity - marker_size
cut_stream-le capacity stream =
    let room = capacity - marker_size in
    let start = room - min 3 room in
    let last = drop start (take room stream) in
    omega (
      arith,
      length-take (start + utf8_prefix last) stream,
      utf8_prefix-le last,
      length-drop start (take room stream),
      length-take room stream,
    )

close_of_IsHealthy :
    (existing : ℕ) (content : List ℕ) (fclose_error : Option ℕ) (log : BoundedLog)
    → IsHealthy existing content log
    → existing + length content + length log.tail < u64_mod
    → let (st, sink, failed) = bounded_close fclose_error log in
      (sink ≡ some (record { content = content ++ log.tail; outcomes = [] }))
      × (st.file_bytes ≡ existing + length (content ++ log.tail))
      × (st.truncated ≡ log.status.truncated)
unfolding bounded_close
close_of_IsHealthy existing content fclose_error log h small = ground (
  arith,
  write_bytes-IsHealthy existing log.tail content log h small,
  write_bytes-Frame log.tail log,
)

close-Ends :
    (existing capacity : ℕ) (stream : List ℕ) (fclose_error : Option ℕ) (log : BoundedLog)
    → existing + capacity < u64_mod
    → marker_size ≤ capacity
    → Ends existing capacity stream log
    → let (st, sink, failed) = bounded_close fclose_error log in
      (sink ≡ some (record { content = expected capacity stream; outcomes = [] }))
      × (st.file_bytes ≡ existing + length (expected capacity stream))
      × (st.truncated ≡ ltb capacity (length stream))
close-Ends existing capacity stream fclose_error log small m (inl (content, k)) =
    let whole : content ++ log.tail ≡ expected capacity stream = ground (arith, k.bytes) in
    let c =
      close_of_IsHealthy existing content fclose_error log k.healthy
        (omega (arith, length-Keeps k)) in
    rw (← whole) (c.0, c.1, c.2 ∙ k.going ∙ ground arith)
close-Ends existing capacity stream fclose_error log small m (inr (over, c)) =
    let content = cut_stream capacity stream ++ marker in
    let whole : content ++ log.tail ≡ expected capacity stream =
      rw (c.emptied, append-nil) (ground arith) in
    let e = close_of_IsHealthy existing content fclose_error log c.healthy (
      omega (
        arith,
        cut_stream-le capacity stream,
        length-append (cut_stream capacity stream) marker,
        ap length c.emptied,
      )) in
    rw (← whole) (e.0, e.1, e.2 ∙ c.cut ∙ ground arith)

wrap-Keeps :
    (env : Wrapping) (existing : ℕ) (status : LogStatus) {st : LogStatus} {log : BoundedLog}
    → env.setvbuf_error ≡ none
    → status.open_errno ≡ 0
    → status.write_errno ≡ 0
    → status.truncated ≡ false
    → existing + marker_size ≤ status.limit
    → status.limit < u64_mod
    → bounded_log_wrap env (some (record { content = []; outcomes = [] })) existing status
      ≡ (st, some log)
    → Keeps existing (status.limit - existing) [] [] log
unfolding bounded_log_wrap
wrap-Keeps env existing status v o w t room small e = ground arith

-- A log over a working stream, wrapped and opened without an error over a file with room for the
-- marker, leaves after any writes and the close exactly what is expected of the stream of the
-- writes: all of it if it fits under the limit, else its cut and the marker. The status then has the
-- file's size, and says that it is truncated exactly when the stream does not fit.
pub bounded_log-expected :
    (env : Wrapping) (existing : ℕ) (status : LogStatus) {st : LogStatus} {log : BoundedLog}
    (chunks : List (List ℕ))
    → env.setvbuf_error ≡ none
    → status.open_errno ≡ 0
    → status.write_errno ≡ 0
    → status.truncated ≡ false
    → existing + marker_size ≤ status.limit
    → status.limit < u64_mod
    → bounded_log_wrap env (some (record { content = []; outcomes = [] })) existing status
      ≡ (st, some log)
    → let (closed, sink, failed) = bounded_close env.fclose_error (write_all chunks log) in
      let capacity = status.limit - existing in
      (sink ≡ some (record { content = expected capacity (flatten chunks); outcomes = [] }))
      × (closed.file_bytes ≡ existing + length (expected capacity (flatten chunks)))
      × (closed.truncated ≡ ltb capacity (length (flatten chunks)))
bounded_log-expected env existing status {log = log} chunks v o w t room small e =
    let capacity = status.limit - existing in
    let start = wrap-Keeps env existing status v o w t room small e in
    close-Ends existing capacity (flatten chunks) env.fclose_error (write_all chunks log)
      (omega arith) (omega arith)
      (write_all-Ends existing capacity chunks [] log (omega arith) (omega arith) (inl ([], start)))
