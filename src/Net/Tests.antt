-- ===== src/Net/Tests.antt =====
-- The loops of net.c on a few calls.
use iperf_swift.Prelude.{ℕ, ◌≡◌, ◌≢◌, refl, false, none, some, List, [], ◌∷◌, arith}
use iperf_swift.Time.{Time}
use iperf_swift.Net.{
  arrives, interrupted, buffer, Round, nrecv, readable, timed_out, Writes, takes, no_buffers,
  nwrite,
}
use iperf_swift.Net.Transfer.{Sent, nwrite-Sent, arrivals, IsPrefixOf, nrecv-IsPrefixOf}
use iperf_swift.Net.Ends.{nrecv_ends, nwrite_ends}

abbrev at_second : ℕ → Time
at_second n = record { secs = n; usecs = 0 }

abbrev rounds : List Round
rounds =
    record { call = arrives (1 ∷ 2 ∷ []); now = at_second 1; select = readable }
    ∷ record { call = arrives (3 ∷ 4 ∷ 5 ∷ []); now = at_second 2; select = readable }
    ∷ record { call = interrupted; now = at_second 3; select = timed_out }
    ∷ []

abbrev writes : List Writes
writes = takes 2 ∷ takes 1 ∷ no_buffers ∷ []

nrecv_run : nrecv false 3 readable rounds ≡ some (buffer (1 ∷ 2 ∷ 3 ∷ []))
unfolding nrecv
nrecv_run = refl

nwrite-Sent_example : Sent (7 ∷ 8 ∷ 9 ∷ 10 ∷ []) (nwrite (7 ∷ 8 ∷ 9 ∷ 10 ∷ []) writes)
nwrite-Sent_example = nwrite-Sent (7 ∷ 8 ∷ 9 ∷ 10 ∷ []) writes

nrecv-IsPrefixOf_example : IsPrefixOf 3 (arrivals rounds) (nrecv false 3 readable rounds)
nrecv-IsPrefixOf_example = nrecv-IsPrefixOf 3 readable rounds

nrecv_ends_example : nrecv false 3 readable rounds ≢ none
nrecv_ends_example = nrecv_ends false 3 readable rounds (omega arith)

nwrite_ends_example : nwrite (7 ∷ 8 ∷ 9 ∷ []) writes ≢ none
nwrite_ends_example = nwrite_ends (7 ∷ 8 ∷ 9 ∷ []) writes (omega arith)
