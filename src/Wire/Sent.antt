-- ===== src/Wire/Sent.antt =====
-- What the bounded writer puts on the socket (iperf_bounded_socket.c).
use mathlib.Core.List.{append_assoc, append-nil}
use iperf_swift.Prelude.{
  ℕ, ◌+◌, ◌*◌, ◌≡◌, refl, ap, sym, subst, ◌∙◌, min, inl, inr, Bool-cases, Bool, not, ◌||◌, Option,
  none, some, List, [], ◌∷◌, ◌++◌, ltb, ◌==◌, length, take, drop, length-take, take-append-drop,
  arith,
}
use iperf_swift.Prelude.Slices.{take-append_left, take-append_le}
use iperf_swift.Prelude.Words.{u64}
use iperf_swift.Udp.Header.{be32_bytes}
use iperf_swift.Output.{frame_max_bytes}
use iperf_swift.Wire.{
  Clock, reads, clock_fails, Turn, Step, goes_on, ends_with, moves, take_turn, WriteResult, written,
  write_error, socket_write, write_body, write_results_socket, read_timeout_ms,
}

-- What went out of `frame`: all of it if the result is 0, else a prefix.
abbrev pub IsSent : List ℕ → WriteResult → List ℕ → Type 0
IsSent frame written out = out ≡ frame
IsSent frame (write_error e) out = out ≡ take (length out) frame

abbrev Outcome : List ℕ → Option (WriteResult × List ℕ × List (Turn ℕ)) → Type 0
Outcome frame none = Unit {0}
Outcome frame (some (result, out, left)) = IsSent frame result out

-- One turn, with the claim for the turns behind it.
turn-Outcome :
    (step : Step ℕ) (deadline_ns : ℕ) (bytes sent : List ℕ) (t : Turn ℕ) (turns : List (Turn ℕ))
    → take_turn deadline_ns t ≡ step
    → ((more out : List ℕ) → Outcome (out ++ more) (socket_write deadline_ns more out turns))
    → Outcome (sent ++ bytes) (socket_write deadline_ns bytes sent (t ∷ turns))
unfolding socket_write
turn-Outcome step deadline_ns [] sent t turns e ih = sym (append-nil sent)
turn-Outcome goes_on deadline_ns (b ∷ bytes) sent t turns e ih =
    rw (socket_write, e) (ih (b ∷ bytes) sent)
turn-Outcome (ends_with errno) deadline_ns (b ∷ bytes) sent t turns e ih =
    rw (socket_write, e) (sym (take-append_left sent (b ∷ bytes)))
turn-Outcome (moves n) deadline_ns (b ∷ bytes) sent t turns e ih =
    let count = min n (min (length (b ∷ bytes)) 4096) in
    let whole : (sent ++ take count (b ∷ bytes)) ++ drop count (b ∷ bytes) ≡ sent ++ b ∷ bytes =
      append_assoc sent (take count (b ∷ bytes)) (drop count (b ∷ bytes))
      ∙ ap (λ x. sent ++ x) (take-append-drop count (b ∷ bytes)) in
    let rest =
      subst
        (λ x. Outcome x (
          socket_write deadline_ns (drop count (b ∷ bytes)) (sent ++ take count (b ∷ bytes)) turns))
        whole (ih (drop count (b ∷ bytes)) (sent ++ take count (b ∷ bytes))) in
    elim (Bool-cases (n == 0)) [
      | inl closed ↦ rw (socket_write, e, closed) (sym (take-append_left sent (b ∷ bytes)))
      | inr more ↦ rw (socket_write, e, more) rest
    ]

socket_write-Outcome :
    (deadline_ns : ℕ) (bytes sent : List ℕ) (turns : List (Turn ℕ))
    → Outcome (sent ++ bytes) (socket_write deadline_ns bytes sent turns)
unfolding socket_write
socket_write-Outcome deadline_ns [] sent [] = sym (append-nil sent)
socket_write-Outcome deadline_ns (b ∷ bytes) sent [] = tt
socket_write-Outcome deadline_ns bytes sent (t ∷ turns) =
    turn-Outcome (take_turn deadline_ns t) deadline_ns bytes sent t turns refl
      (λ more out. socket_write-Outcome deadline_ns more out turns)

-- the same without the turns that are left
abbrev pub FrameSent : List ℕ → Option (WriteResult × List ℕ) → Type 0
FrameSent frame none = Unit {0}
FrameSent frame (some (result, out)) = IsSent frame result out

body-FrameSent :
    (deadline_ns : ℕ) (header bytes : List ℕ) (r : Option (WriteResult × List ℕ × List (Turn ℕ)))
    → Outcome header r
    → FrameSent (header ++ bytes) (write_body deadline_ns bytes r)
unfolding write_body
body-FrameSent deadline_ns header bytes none h = tt
body-FrameSent deadline_ns header bytes (some (write_error e, out, left)) h =
    h
    ∙ sym (
        take-append_le header bytes (length out)
          (omega (arith, ap length h, length-take (length out) header)))
body-FrameSent deadline_ns header bytes (some (written, out, left)) h =
    subst (λ x. FrameSent (x ++ bytes) (write_body deadline_ns bytes (some (written, out, left)))) h
      (strip (socket_write deadline_ns bytes out left)
        (socket_write-Outcome deadline_ns bytes out left))
  where
    strip :
        (r : Option (WriteResult × List ℕ × List (Turn ℕ)))
        → Outcome (out ++ bytes) r
        → FrameSent
            (out ++ bytes)
            (elim r [ none ↦ none | some (result, sent, rest) ↦ some (result, sent) ])
    strip none o = tt
    strip (some (result, sent, rest)) o = o

-- Whatever the clock, the callback and the socket do, a finished write of the results has put the
-- whole frame on the socket if it returns 0, the length of the bytes in network order and then the
-- bytes; else a prefix of that frame.
pub write_results_socket-FrameSent :
    (fd_ok : Bool) (bytes : List ℕ) (timeout_ms : ℕ) (start : Clock) (turns : List (Turn ℕ))
    → FrameSent
        (be32_bytes (length bytes) ++ bytes)
        (write_results_socket fd_ok bytes timeout_ms start turns)
unfolding write_results_socket
write_results_socket-FrameSent fd_ok bytes timeout_ms start turns =
    elim (Bool-cases (
      not fd_ok
      || length bytes == 0
      || ltb frame_max_bytes (length bytes)
      || timeout_ms == 0
      || ltb read_timeout_ms timeout_ms)) [
        | inl bad ↦ rw bad refl
        | inr good ↦ rw good (timed start)
      ]
  where
    timed :
        (start : Clock)
        → FrameSent (be32_bytes (length bytes) ++ bytes) (elim start [
          | clock_fails e ↦ some (write_error e, [])
          | reads now ↦
              let deadline_ns = u64 (now + timeout_ms * 1000000) in
              write_body deadline_ns bytes
                (socket_write deadline_ns (be32_bytes (length bytes)) [] turns)
        ])
    timed (clock_fails e) = refl
    timed (reads now) =
        let deadline_ns = u64 (now + timeout_ms * 1000000) in
        let header = be32_bytes (length bytes) in
        body-FrameSent deadline_ns header bytes (socket_write deadline_ns header [] turns)
          (socket_write-Outcome deadline_ns header [] turns)
