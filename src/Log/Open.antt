-- ===== src/Log/Open.antt =====
-- Opening and closing the logfile (iperf_bounded_log.c). What the C library and the system answer
-- is an argument: `Wrapping` for the stdio calls, `PathOpen` for the calls on the path.
use iperf_swift.Prelude.{
  ℕ, Bool, true, false, not, ◌&&◌, ◌||◌, Option, none, some, [], if◌then◌else◌, ltb, ◌==◌,
}
use iperf_swift.Prelude.Words.{sub_u64}
use iperf_swift.Log.{
  Sink, LogStatus, BoundedLog, marker_size, einval, efbig, enomem, remember_error, write_bytes,
}

-- What `calloc`, `setvbuf`, `funopen` and `fclose` do: the errno of a failure, or none.
pub record Wrapping : Type 0 where
  pub calloc_ok : Bool
  pub setvbuf_error : Option ℕ
  pub funopen_error : Option ℕ
  pub fclose_error : Option ℕ

pub data PathOpen : Type 0 where
  open_fails : ℕ → PathOpen
  fstat_fails : ℕ → PathOpen
  irregular : PathOpen
  fdopen_fails : ℕ → ℕ → PathOpen
  opens : ℕ → Sink → PathOpen

abbrev remember_option : ℕ → Option ℕ → ℕ
unfolding remember_error
remember_option slot none = slot
remember_option slot (some e) = remember_error slot e

-- The status, the stream's last state, and whether the call fails.
unfoldable pub bounded_close : Option ℕ → BoundedLog → LogStatus × Option Sink × Bool
unfolding remember_error
bounded_close fclose_error log =
    let log' = write_bytes log.tail log in
    let st = log'.status in
    elim (log'.sink) [
      | none ↦ (st, none, false)
      | some s ↦ elim fclose_error [
        | none ↦ (st, some s, false)
        | some e ↦ (record st { close_errno = remember_error st.close_errno e }, some s, true)
      ]
    ]

abbrev is_some : Option Sink → Bool
is_some none = false
is_some (some s) = true

-- the log before `setvbuf`
unfoldable pub wrap_capacity : Option Sink → ℕ → LogStatus → BoundedLog
unfolding remember_error
wrap_capacity sink existing_bytes status =
    if ltb status.limit marker_size || ltb status.limit existing_bytes
    then record {
      sink = sink;
      status = record status {
        open_errno =
            remember_error status.open_errno
              (if ltb status.limit existing_bytes then efbig else einval);
      };
      capacity = 0;
      accepted = 0;
      tail = [];
    }
    else record {
      sink = sink;
      status = status;
      capacity = sub_u64 status.limit existing_bytes;
      accepted = 0;
      tail = [];
    }

abbrev setvbuf_error_of : Wrapping → Option Sink → Option ℕ
setvbuf_error_of env none = none
setvbuf_error_of env (some s) = env.setvbuf_error

-- The status that the caller sees, and the log behind the returned `FILE` (none for NULL).
unfoldable pub bounded_log_wrap :
    Wrapping → Option Sink → ℕ → LogStatus → LogStatus × Option BoundedLog
unfolding wrap_capacity bounded_close remember_error
bounded_log_wrap env sink existing_bytes status =
    let st = record status {
      attempted = true;
      file_bytes = existing_bytes;
      file_size_known = if is_some sink then true else status.file_size_known;
    } in
    if not env.calloc_ok
    then (record st { open_errno = remember_error st.open_errno enomem }, none)
    else let log = wrap_capacity sink existing_bytes st in
      let st' = record (log.status) {
        open_errno = remember_option log.status.open_errno (setvbuf_error_of env sink);
      } in
      let log' = record log { status = st' } in
      elim env.funopen_error [
        | none ↦ (st', some log')
        | some e ↦
            let (closed, s, failed) = bounded_close env.fclose_error log' in
            (record closed { open_errno = remember_error closed.open_errno e }, none)
      ]

unfoldable pub is_stopped : LogStatus → Bool
is_stopped st =
    st.attempted
    && (st.truncated
        || not (st.open_errno == 0)
        || not (st.write_errno == 0)
        || not (st.close_errno == 0))

-- what the calls on the path leave: the status, the stream and the bytes that the file holds
unfoldable pub open_path : PathOpen → LogStatus → LogStatus × Option Sink × ℕ
unfolding remember_error
open_path (open_fails e) st = (record st { open_errno = remember_error st.open_errno e }, none, 0)
open_path (fstat_fails e) st = (record st { open_errno = remember_error st.open_errno e }, none, 0)
open_path irregular st = (record st { open_errno = remember_error st.open_errno einval }, none, 0)
open_path (fdopen_fails size e) st =
    (record st { file_size_known = true; open_errno = remember_error st.open_errno e }, none, size)
open_path (opens size s) st = (record st { file_size_known = true }, some s, size)

unfoldable pub bounded_log_open : Wrapping → PathOpen → LogStatus → LogStatus × Option BoundedLog
unfolding is_stopped bounded_log_wrap open_path
bounded_log_open env path status =
    if is_stopped status
    then bounded_log_wrap env none status.file_bytes status
    else let (st, sink, existing) = open_path path status in bounded_log_wrap env sink existing st
