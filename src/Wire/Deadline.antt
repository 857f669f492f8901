-- ===== src/Wire/Deadline.antt =====
-- The bounded writer ends by its deadline (iperf_bounded_socket.c).
use iperf_swift.Prelude.{
  ℕ, ◌+◌, ◌*◌, ◌≤◌, ◌≡◌, ◌≢◌, refl, min, inl, inr, Bool-cases, Bool, Option, none, some, List, [],
  ◌∷◌, ◌++◌, ◌==◌, length, take, drop, arith,
}
use iperf_swift.Prelude.Words.{u64}
use iperf_swift.Udp.Header.{be32_bytes}
use iperf_swift.Wire.{
  Clock, reads, clock_fails, Turn, Step, goes_on, ends_with, moves, take_turn, WriteResult, written,
  write_error, socket_write, write_body, write_results_socket,
}

-- The clock of a turn has reached the deadline.
abbrev pub IsLate : ℕ → Clock → Type 0
IsLate deadline_ns (reads now) = deadline_ns ≤ now
IsLate deadline_ns (clock_fails e) = Unit {0}

-- There is a turn whose clock has reached the deadline.
pub data HasLate (deadline_ns : ℕ) : List (Turn ℕ) → Type 0 where
  here :
      {t : Turn ℕ} {turns : List (Turn ℕ)}
      → IsLate deadline_ns t.clock
      → HasLate deadline_ns (t ∷ turns)
  later :
      {t : Turn ℕ} {turns : List (Turn ℕ)}
      → HasLate deadline_ns turns
      → HasLate deadline_ns (t ∷ turns)

-- The loop has ended, and if all is written the turns that are left still reach the deadline.
abbrev Ends : ℕ → Option (WriteResult × List ℕ × List (Turn ℕ)) → Type 0
Ends deadline_ns none = ⊥
Ends deadline_ns (some (write_error e, out, left)) = Unit {0}
Ends deadline_ns (some (written, out, left)) = HasLate deadline_ns left

-- A late turn ends the loop.
late_turn :
    (deadline_ns : ℕ) (t : Turn ℕ)
    → IsLate deadline_ns t.clock
    → (take_turn deadline_ns t ≢ goes_on) × ((n : ℕ) → take_turn deadline_ns t ≢ moves n)
unfolding take_turn
late_turn deadline_ns t late = (ground arith, λ n. ground arith)

turn-Ends :
    (step : Step ℕ) (deadline_ns : ℕ) (bytes sent : List ℕ) (t : Turn ℕ) (turns : List (Turn ℕ))
    → take_turn deadline_ns t ≡ step
    → HasLate deadline_ns (t ∷ turns)
    → ((more out : List ℕ)
        → HasLate deadline_ns turns
        → Ends deadline_ns (socket_write deadline_ns more out turns))
    → Ends deadline_ns (socket_write deadline_ns bytes sent (t ∷ turns))
unfolding socket_write
turn-Ends step deadline_ns [] sent t turns e late ih = late
turn-Ends goes_on deadline_ns (b ∷ bytes) sent t turns e (here now) ih =
    absurd ((late_turn deadline_ns t now).0 e)
turn-Ends goes_on deadline_ns (b ∷ bytes) sent t turns e (later late) ih =
    rw (socket_write, e) (ih (b ∷ bytes) sent late)
turn-Ends (ends_with errno) deadline_ns (b ∷ bytes) sent t turns e late ih = rw (socket_write, e) tt
turn-Ends (moves n) deadline_ns (b ∷ bytes) sent t turns e (here now) ih =
    absurd ((late_turn deadline_ns t now).1 n e)
turn-Ends (moves n) deadline_ns (b ∷ bytes) sent t turns e (later late) ih =
    let count = min n (min (length (b ∷ bytes)) 4096) in
    let rest = ih (drop count (b ∷ bytes)) (sent ++ take count (b ∷ bytes)) late in
    elim (Bool-cases (n == 0)) [
      | inl closed ↦ rw (socket_write, e, closed) tt
      | inr more ↦ rw (socket_write, e, more) rest
    ]

socket_write-Ends :
    (deadline_ns : ℕ) (bytes sent : List ℕ) (turns : List (Turn ℕ))
    → HasLate deadline_ns turns
    → Ends deadline_ns (socket_write deadline_ns bytes sent turns)
socket_write-Ends deadline_ns bytes sent [] late = elim late [ ]
socket_write-Ends deadline_ns bytes sent (t ∷ turns) late =
    turn-Ends (take_turn deadline_ns t) deadline_ns bytes sent t turns refl late
      (λ more out l. socket_write-Ends deadline_ns more out turns l)

body-Ends :
    (deadline_ns : ℕ) (bytes : List ℕ) (r : Option (WriteResult × List ℕ × List (Turn ℕ)))
    → Ends deadline_ns r
    → write_body deadline_ns bytes r ≢ none
unfolding write_body
body-Ends deadline_ns bytes none h = absurd h
body-Ends deadline_ns bytes (some (write_error e, out, left)) h = ground arith
body-Ends deadline_ns bytes (some (written, out, left)) h =
    strip (socket_write deadline_ns bytes out left) (socket_write-Ends deadline_ns bytes out left h)
  where
    strip :
        (r : Option (WriteResult × List ℕ × List (Turn ℕ)))
        → Ends deadline_ns r
        → (let body : Option (WriteResult × List ℕ) = elim r [
          | none ↦ none
          | some (result, sent, rest) ↦ some (result, sent)
        ] in
            body ≢ none)
    strip none o = absurd o
    strip (some (result, sent, rest)) o = ground arith

-- A write of the results that starts at `now` returns, at the latest in the turn whose clock has
-- reached the deadline of `timeout_ms` milliseconds, or fails; however little the socket takes.
pub write_results_socket_ends :
    (fd_ok : Bool) (bytes : List ℕ) (timeout_ms now : ℕ) (turns : List (Turn ℕ))
    → HasLate (u64 (now + timeout_ms * 1000000)) turns
    → write_results_socket fd_ok bytes timeout_ms (reads now) turns ≢ none
unfolding write_results_socket
write_results_socket_ends fd_ok bytes timeout_ms now turns late =
    let deadline_ns = u64 (now + timeout_ms * 1000000) in
    let header = be32_bytes (length bytes) in
    ground (
      arith,
      body-Ends deadline_ns bytes (socket_write deadline_ns header [] turns)
          (socket_write-Ends deadline_ns header [] turns late),
    )
