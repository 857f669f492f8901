-- ===== src/Wire/Header.antt =====
-- The header of a frame of results (iperf_bounded_socket.c): the reader takes four bytes of it.
use iperf_swift.Prelude.{
  ℕ, zero, suc, ◌+◌, ◌-◌, ◌≤◌, ◌<◌, ◌≡◌, refl, inl, inr, Bool-cases, Option, none, some, List, [],
  ◌∷◌, ◌++◌, ltb, length, length-take, length-append, arith,
}
use iperf_swift.Wire.{
  Turn, Step, goes_on, ends_with, moves, take_turn, SocketRead, read_error, received, socket_read,
  read_header_bytes,
}

-- At most `capacity` bytes.
abbrev Fits : ℕ → Option (SocketRead × List (Turn (List ℕ))) → Type 0
Fits capacity none = Unit {0}
Fits capacity (some (read_error e, left)) = Unit {0}
Fits capacity (some (received bytes, left)) = length bytes ≤ capacity

turn-Fits :
    (step : Step (List ℕ)) (deadline_ns capacity : ℕ) (t : Turn (List ℕ))
    (turns : List (Turn (List ℕ)))
    → take_turn deadline_ns t ≡ step
    → Fits capacity (socket_read deadline_ns capacity turns)
    → Fits capacity (socket_read deadline_ns capacity (t ∷ turns))
unfolding socket_read
turn-Fits goes_on deadline_ns capacity t turns e ih = rw (socket_read, e) ih
turn-Fits (ends_with errno) deadline_ns capacity t turns e ih = rw (socket_read, e) tt
turn-Fits (moves bytes) deadline_ns capacity t turns e ih =
    rw (socket_read, e) (omega (arith, length-take capacity bytes))

socket_read-Fits :
    (deadline_ns capacity : ℕ) (turns : List (Turn (List ℕ)))
    → Fits capacity (socket_read deadline_ns capacity turns)
socket_read-Fits deadline_ns capacity [] = unfold socket_read in tt
socket_read-Fits deadline_ns capacity (t ∷ turns) =
    turn-Fits (take_turn deadline_ns t) deadline_ns capacity t turns refl
      (socket_read-Fits deadline_ns capacity turns)

-- A header that was read has four bytes.
abbrev pub HasFour : Option ((List ℕ × List (Turn (List ℕ))) × Option ℕ) → Type 0
HasFour none = Unit {0}
HasFour (some ((header, left), none)) = length header ≡ 4
HasFour (some ((header, left), some e)) = length header < 4

round-HasFour :
    (r : Option (SocketRead × List (Turn (List ℕ)))) (fuel deadline_ns : ℕ) (header : List ℕ)
    (turns : List (Turn (List ℕ)))
    → socket_read deadline_ns (4 - length header) turns ≡ r
    → Fits (4 - length header) r
    → length header < 4
    → 4 ≤ length header + suc fuel
    → ((more : List ℕ) (left : List (Turn (List ℕ)))
        → length more < 4
        → 4 ≤ length more + fuel
        → HasFour (read_header_bytes fuel deadline_ns more left))
    → HasFour (read_header_bytes (suc fuel) deadline_ns header turns)
unfolding read_header_bytes
round-HasFour none fuel deadline_ns header turns e fits few enough ih = rw (read_header_bytes, e) tt
round-HasFour (some (read_error errno, left)) fuel deadline_ns header turns e fits few enough ih =
    rw (read_header_bytes, e) few
round-HasFour (some (received [], left)) fuel deadline_ns header turns e fits few enough ih =
    rw (read_header_bytes, e) few
round-HasFour (some (received (c ∷ cs), left)) fuel deadline_ns header turns e fits few enough ih =
    let size = length-append header (c ∷ cs) in
    elim (Bool-cases (ltb (length (header ++ c ∷ cs)) 4)) [
      | inl short ↦
          rw (read_header_bytes, e, short)
            (ih (header ++ c ∷ cs) left (ground (arith, size)) (ground (arith, size)))
      | inr full ↦ rw (read_header_bytes, e, full) (ground (arith, size))
    ]

header-HasFour :
    (fuel deadline_ns : ℕ) (header : List ℕ) (turns : List (Turn (List ℕ)))
    → length header < 4
    → 4 ≤ length header + fuel
    → HasFour (read_header_bytes fuel deadline_ns header turns)
header-HasFour zero deadline_ns header turns few enough = absurd (omega arith)
header-HasFour (suc fuel) deadline_ns header turns few enough =
    round-HasFour (socket_read deadline_ns (4 - length header) turns) fuel deadline_ns header turns
      refl (socket_read-Fits deadline_ns (4 - length header) turns) few enough
      (λ more left short room. header-HasFour fuel deadline_ns more left short room)

-- However the socket splits them, a header that the reader accepts has exactly four bytes, and one
-- that it gives up with an error has fewer: no byte behind the header is taken, and four rounds are
-- enough.
pub read_header_bytes-HasFour :
    (deadline_ns : ℕ) (turns : List (Turn (List ℕ)))
    → HasFour (read_header_bytes 4 deadline_ns [] turns)
read_header_bytes-HasFour deadline_ns turns =
    header-HasFour 4 deadline_ns [] turns (omega arith) (omega arith)
