-- ===== src/Log.antt =====
-- Sources/IperfCLib/iperf_bounded_log.c: a logfile that never grows past its limit.
-- The stdio stream below is a `Sink`: the bytes that reached the file, and what each coming
-- `fwrite` will do. The log is the state behind the `FILE` that `funopen` returns.
pub mod Open
pub mod Tail
pub mod Bounds
pub mod Content
pub mod Expected
pub mod Writes
pub mod Refine
mod Tests
use Prim.Native.Nat.{bit_and}
use iperf_swift.Prelude.{
  codes, ℕ, zero, suc, ◌+◌, ◌-◌, min, Bool, true, false, not, ◌&&◌, ◌||◌, Option, none, some, List,
  [], ◌∷◌, ◌++◌, if◌then◌else◌, ltb, leb, ◌==◌, length, get_or, take, drop,
}
use iperf_swift.Prelude.Words.{u64, sub_u64}

-- What one `fwrite` does: the bytes it takes at most, the stream's error flag after it, `errno`.
pub record Outcome : Type 0 where
  pub accepts : ℕ
  pub ferror : Bool
  pub errno : ℕ

-- The stream `sink`. With no outcome left every write succeeds.
pub record Sink : Type 0 where
  pub content : List ℕ
  pub outcomes : List Outcome

-- `struct iperf_log_status`; an errno of 0 is "no error"
pub record LogStatus : Type 0 where
  pub limit : ℕ
  pub bytes_written : ℕ
  pub file_bytes : ℕ
  pub attempted : Bool
  pub file_size_known : Bool
  pub truncated : Bool
  pub open_errno : ℕ
  pub write_errno : ℕ
  pub close_errno : ℕ

-- `struct bounded_log`. `tail` holds the first `tail_size` bytes of the array, and `sink` is none
-- where the pointer is NULL.
pub record BoundedLog : Type 0 where
  pub sink : Option Sink
  pub status : LogStatus
  pub capacity : ℕ
  pub accepted : ℕ
  pub tail : List ℕ

-- "\n[iperf log truncated]\n"
abbrev pub marker : List ℕ
marker = (10 ∷ codes "[iperf log truncated]") ++ (10 ∷ [])

abbrev pub marker_size : ℕ
marker_size = 23

abbrev pub tail_size_max : ℕ
tail_size_max = 26

abbrev pub einval : ℕ
einval = 22

abbrev pub eio : ℕ
eio = 5

abbrev pub efbig : ℕ
efbig = 27

abbrev pub enomem : ℕ
enomem = 12

unfoldable pub remember_error : ℕ → ℕ → ℕ
remember_error slot error = if slot == 0 then (if error == 0 then eio else error) else slot

-- the stream after `fwrite`, the count that it returns, `ferror` and `errno`
unfoldable pub fwrite : List ℕ → Sink → Sink × ℕ × Bool × ℕ
fwrite bytes sink = elim (sink.outcomes) [
  | [] ↦ (record sink { content = sink.content ++ bytes }, length bytes, false, 0)
  | o ∷ os ↦ (
    record sink { content = sink.content ++ take o.accepts bytes; outcomes = os },
    min o.accepts (length bytes),
    o.ferror,
    o.errno,
  )
]

-- the part of `write_bytes` behind its guard
write_sink : List ℕ → Sink → BoundedLog → BoundedLog
unfolding fwrite remember_error
write_sink bytes s log =
    let (s', written, failed, errno) = fwrite bytes s in
    let st = log.status in
    record log {
      sink = some s';
      status = record st {
        bytes_written = u64 (st.bytes_written + written);
        file_bytes = u64 (st.file_bytes + written);
        write_errno =
            if not (written == length bytes) || failed
            then remember_error st.write_errno errno
            else st.write_errno;
      };
    }

unfoldable pub write_bytes : List ℕ → BoundedLog → BoundedLog
unfolding write_sink
write_bytes bytes log =
    if length bytes == 0 || not (log.status.write_errno == 0)
    then log
    else elim (log.sink) [ none ↦ log | some s ↦ write_sink bytes s log ]

-- Holds back the last bytes: what does not fit in the tail is written, oldest first.
unfoldable pub retain_prefix : List ℕ → BoundedLog → BoundedLog
retain_prefix bytes log =
    let n = length log.tail in
    let count = length bytes in
    let flush = if ltb tail_size_max (n + count) then n + count - tail_size_max else 0 in
    let old = if ltb flush n then flush else n in
    let log1 = write_bytes (take old log.tail) log in
    let log2 = write_bytes (take (flush - old) bytes) log1 in
    record log2 { tail = drop old log.tail ++ drop (flush - old) bytes }

-- `while (start > 0 && (bytes[start] & 0xc0) == 0x80) --start;`
unfoldable pub utf8_start : List ℕ → ℕ → ℕ
utf8_start bytes zero = 0
utf8_start bytes (suc start) =
    if bit_and (get_or bytes (suc start) 0) 0xc0 == 0x80 then utf8_start bytes start else suc start

unfoldable pub utf8_width : ℕ → ℕ
utf8_width lead =
    if leb 0xf0 lead && leb lead 0xf4
    then 4
    else if leb 0xe0 lead && leb lead 0xef
    then 3
    else if leb 0xc2 lead && leb lead 0xdf
    then 2
    else 1

-- The list is `bytes[0..count)`.
unfoldable pub utf8_prefix : List ℕ → ℕ
unfolding utf8_start utf8_width
utf8_prefix bytes =
    let count = length bytes in
    if count == 0
    then 0
    else let start = utf8_start bytes (count - 1) in
      if ltb (count - start) (utf8_width (get_or bytes start 0)) then start else count

-- the branch of `bounded_write` that the input overruns
write_marker : BoundedLog → BoundedLog
unfolding utf8_prefix
write_marker log =
    let st = log.status in
    let log1 = record log { status = record st { truncated = true } } in
    let prefix = utf8_prefix (take (length log.tail - marker_size) log.tail) in
    let log2 = write_bytes (take prefix log.tail) log1 in
    let log3 = write_bytes marker log2 in record log3 { tail = [] }

abbrev pub is_disabled : LogStatus → Bool
is_disabled st = st.truncated || not (st.open_errno == 0) || not (st.write_errno == 0)

-- the part of `bounded_write` behind its guards
write_bounded : List ℕ → BoundedLog → BoundedLog
unfolding write_marker
write_bounded bytes log =
    let remaining = sub_u64 log.capacity log.accepted in
    let keep = if ltb (length bytes) remaining then length bytes else remaining in
    let log1 = retain_prefix (take keep bytes) log in
    let log2 = record log1 { accepted = u64 (log1.accepted + keep) } in
    if ltb remaining (length bytes) then write_marker log2 else log2

-- The new state; the function returns `count` whatever happens. No bytes are given where the
-- `count` is not positive.
unfoldable pub bounded_write : List ℕ → BoundedLog → BoundedLog × ℕ
unfolding write_bounded
bounded_write bytes log =
    let st = log.status in
    (
      if length bytes == 0 || is_disabled st
          then log
          else if ltb log.capacity marker_size
          then record log { status = record st { truncated = true } }
          else write_bounded bytes log,
      length bytes,
    )
