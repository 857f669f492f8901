-- ===== src/Wire.antt =====
-- Sources/IperfCLib/iperf_bounded_socket.c: the frame of the results on the control socket, with one
-- deadline and with cancellation. What the callback, the clock and the socket answer in each turn of
-- a loop is a list, in order; a list that ends stands for a loop that goes on, and the result is none.
pub mod Sent
pub mod Deadline
pub mod Header
mod Tests
use iperf_swift.Prelude.{
  ℕ, zero, suc, ◌+◌, ◌-◌, ◌*◌, min, Bool, true, false, not, ◌||◌, Option, none, some, List, [], ◌∷◌,
  ◌++◌, if◌then◌else◌, ltb, leb, ◌==◌, length, take, drop,
}
use iperf_swift.Prelude.Words.{u64}
use iperf_swift.Udp.Header.{be32_bytes, be32_at}
use iperf_swift.Output.{frame_max_bytes, eproto, einval}

abbrev pub read_timeout_ms : ℕ
read_timeout_ms = 30000

-- errno values of the development's system; any different numbers but 0 would do
abbrev pub ecanceled : ℕ
ecanceled = 89

abbrev pub etimedout : ℕ
etimedout = 60

abbrev pub ebadf : ℕ
ebadf = 9

abbrev pub epipe : ℕ
epipe = 32

-- `monotonic_ns`: nanoseconds, or the errno of its failure
pub data Clock : Type 0 where
  reads : ℕ → Clock
  clock_fails : ℕ → Clock

-- `poll`: interrupted, another errno, a timeout, `POLLNVAL`, or ready
pub data Polls : Type 0 where
  poll_interrupted : Polls
  poll_fails : ℕ → Polls
  not_ready : Polls
  bad_descriptor : Polls
  is_ready : Polls

-- `send` or `recv`: what is transferred, `EAGAIN`, `EWOULDBLOCK` or `EINTR`, or another errno
pub data Transfers (A : Type 0) : Type 0 where
  transfers : A → Transfers A
  try_again : Transfers A
  transfer_fails : ℕ → Transfers A

-- One turn of a loop.
pub record Turn (A : Type 0) : Type 0 where
  pub cancelled : Bool
  pub clock : Clock
  pub poll : Polls
  pub call : Transfers A

-- What a turn comes to: the loop goes on, it ends with an errno, or something is transferred.
pub data Step (A : Type 0) : Type 0 where
  goes_on : Step A
  ends_with : ℕ → Step A
  moves : A → Step A

-- The part that `socket_read` and `socket_write` share.
unfoldable pub take_turn : {A : Type 0} → ℕ → Turn A → Step A
take_turn deadline_ns t = if t.cancelled then ends_with ecanceled else elim (t.clock) [
  | clock_fails e ↦ ends_with e
  | reads now ↦ if leb deadline_ns now then ends_with etimedout else elim (t.poll) [
    | poll_interrupted ↦ goes_on
    | poll_fails e ↦ ends_with e
    | not_ready ↦ goes_on
    | bad_descriptor ↦ ends_with ebadf
    | is_ready ↦ elim (t.call) [
      | transfers a ↦ moves a
      | try_again ↦ goes_on
      | transfer_fails e ↦ ends_with e
    ]
  ]
]

-- What `socket_read` returns: -1 with an errno, or the bytes (none of them for the end).
pub data SocketRead : Type 0 where
  read_error : ℕ → SocketRead
  received : List ℕ → SocketRead

-- `socket_read`, with the turns that are left
unfoldable pub socket_read :
    ℕ → ℕ → List (Turn (List ℕ)) → Option (SocketRead × List (Turn (List ℕ)))
unfolding take_turn
socket_read deadline_ns capacity [] = none
socket_read deadline_ns capacity (t ∷ turns) =
    let rest = socket_read deadline_ns capacity turns in
    elim (take_turn deadline_ns t) [
      | goes_on ↦ rest
      | ends_with e ↦ some (read_error e, turns)
      | moves bytes ↦ some (received (take capacity bytes), turns)
    ]

-- what `socket_write` returns, 0 or -1 with an errno
pub data WriteResult : Type 0 where
  written : WriteResult
  write_error : ℕ → WriteResult

-- `socket_write` of what is left of the bytes, with those that went out and the turns that are left
unfoldable pub socket_write :
    ℕ → List ℕ → List ℕ → List (Turn ℕ) → Option (WriteResult × List ℕ × List (Turn ℕ))
unfolding take_turn
socket_write deadline_ns [] sent turns = some (written, sent, turns)
socket_write deadline_ns (b ∷ bytes) sent [] = none
socket_write deadline_ns (b ∷ bytes) sent (t ∷ turns) =
    let again = socket_write deadline_ns (b ∷ bytes) sent turns in
    let chunk = min (length (b ∷ bytes)) 4096 in
    elim (take_turn deadline_ns t) [
      | goes_on ↦ again
      | ends_with e ↦ some (write_error e, sent, turns)
      | moves n ↦
          let count = min n chunk in
          let rest =
            socket_write deadline_ns (drop count (b ∷ bytes)) (sent ++ take count (b ∷ bytes))
              turns in
          if n == 0 then some (write_error epipe, sent, turns) else rest
    ]

-- the body behind the header
unfoldable pub write_body :
    ℕ → List ℕ → Option (WriteResult × List ℕ × List (Turn ℕ)) → Option (WriteResult × List ℕ)
unfolding socket_write
write_body deadline_ns bytes none = none
write_body deadline_ns bytes (some (write_error e, sent, turns)) = some (write_error e, sent)
write_body deadline_ns bytes (some (written, sent, turns)) =
    elim (socket_write deadline_ns bytes sent turns) [
      | none ↦ none
      | some (result, out, left) ↦ some (result, out)
    ]

-- `write_results_socket`: the result, and all bytes that went out. `fd_ok` says that `fd` is not
-- negative and `bytes` not NULL.
unfoldable pub write_results_socket :
    Bool → List ℕ → ℕ → Clock → List (Turn ℕ) → Option (WriteResult × List ℕ)
unfolding write_body socket_write
write_results_socket fd_ok bytes timeout_ms start turns =
    if not fd_ok
      || length bytes == 0
      || ltb frame_max_bytes (length bytes)
      || timeout_ms == 0
      || ltb read_timeout_ms timeout_ms
    then some (write_error einval, [])
    else elim start [
      | clock_fails e ↦ some (write_error e, [])
      | reads now ↦
          let deadline_ns = u64 (now + timeout_ms * 1000000) in
          write_body deadline_ns bytes
            (socket_write deadline_ns (be32_bytes (length bytes)) [] turns)
    ]

-- The loop over the header of `read_results_socket`: its length, or the errno of a failure, with the
-- turns that are left. A round takes a byte or ends, so fuel for the four bytes is enough.
unfoldable pub read_header_bytes :
    ℕ → ℕ → List ℕ → List (Turn (List ℕ)) → Option ((List ℕ × List (Turn (List ℕ))) × Option ℕ)
unfolding socket_read
read_header_bytes zero deadline_ns header turns = some ((header, turns), none)
read_header_bytes (suc fuel) deadline_ns header turns =
    elim (socket_read deadline_ns (4 - length header) turns) [
      | none ↦ none
      | some (read_error e, left) ↦ some ((header, left), some e)
      | some (received [], left) ↦ some ((header, left), some eproto)
      | some (received (c ∷ cs), left) ↦
          let rest = read_header_bytes fuel deadline_ns (header ++ c ∷ cs) left in
          if ltb (length (header ++ c ∷ cs)) 4 then rest else some ((header ++ c ∷ cs, left), none)
    ]
