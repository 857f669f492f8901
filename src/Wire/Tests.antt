-- ===== src/Wire/Tests.antt =====
-- A small frame on the control socket (iperf_bounded_socket.c).
use iperf_swift.Prelude.{
  ℕ, ◌≡◌, ◌≢◌, refl, true, false, none, some, List, [], ◌∷◌, ◌++◌, length, arith,
}
use iperf_swift.Udp.Header.{be32_bytes}
use iperf_swift.Wire.{
  Turn, reads, not_ready, is_ready, transfers, try_again, written, write_results_socket,
  read_header_bytes,
}
use iperf_swift.Wire.Sent.{FrameSent, write_results_socket-FrameSent}
use iperf_swift.Wire.Deadline.{here, later, write_results_socket_ends}
use iperf_swift.Wire.Header.{HasFour, read_header_bytes-HasFour}

abbrev sends_at : ℕ → ℕ → Turn ℕ
sends_at now n = record {
  cancelled = false;
  clock = reads now;
  poll = is_ready;
  call = transfers n;
}

abbrev waits_at : ℕ → Turn ℕ
waits_at now = record { cancelled = false; clock = reads now; poll = not_ready; call = try_again }

abbrev bytes : List ℕ
bytes = 7 ∷ 8 ∷ 9 ∷ []

abbrev turns : List (Turn ℕ)
turns = sends_at 5 3 ∷ sends_at 6 1 ∷ waits_at 7 ∷ sends_at 8 3 ∷ []

write_run :
    write_results_socket true bytes 1 (reads 5) turns ≡ some (written, be32_bytes 3 ++ bytes)
unfolding write_results_socket
write_run = refl

write_results_socket-FrameSent_example :
    FrameSent
      (be32_bytes (length bytes) ++ bytes)
      (write_results_socket true bytes 1 (reads 5) turns)
write_results_socket-FrameSent_example = write_results_socket-FrameSent true bytes 1 (reads 5) turns

write_results_socket_ends_example :
    write_results_socket true bytes 1 (reads 5) (waits_at 6 ∷ sends_at 1000005 3 ∷ []) ≢ none
write_results_socket_ends_example =
    write_results_socket_ends true bytes 1 5 (waits_at 6 ∷ sends_at 1000005 3 ∷ [])
      (later (here (omega arith)))

abbrev arrives_at : ℕ → List ℕ → Turn (List ℕ)
arrives_at now got = record {
  cancelled = false;
  clock = reads now;
  poll = is_ready;
  call = transfers got;
}

read_header_bytes-HasFour_example :
    HasFour
      (read_header_bytes 4 100 [] (arrives_at 1 (0 ∷ []) ∷ arrives_at 2 (0 ∷ 0 ∷ 3 ∷ 7 ∷ []) ∷ []))
read_header_bytes-HasFour_example =
    read_header_bytes-HasFour 100 (arrives_at 1 (0 ∷ []) ∷ arrives_at 2 (0 ∷ 0 ∷ 3 ∷ 7 ∷ []) ∷ [])
