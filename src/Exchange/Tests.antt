-- ===== src/Exchange/Tests.antt =====
-- An exchange of results.
use iperf_swift.Prelude.{ℕ, ◌+◌, ◌-◌, ◌≡◌, refl, true, false, none, some, [], ◌∷◌, map, arith}
use iperf_swift.Prelude.Int.{ℤ, pos}
use iperf_swift.Time.{time_diff}
use iperf_swift.Udp.{Floats}
use iperf_swift.Params.{sender, receiver}
use iperf_swift.Exchange.{Stream, TestResults, Carrier, send_results}
use iperf_swift.Exchange.Receive.{find_stream, get_results}
use iperf_swift.Exchange.Both.{IsMatched}
use iperf_swift.Exchange.Agreed.{
  CarrierLaws, AllReportable, Knows, values_of, get_results-send_results,
}

-- whole numbers of seconds
abbrev fl : Floats
fl = record {
  F = ℕ;
  zero_f = 0;
  in_secs = λ t. t.secs;
  add_f = λ a b. a + b;
  sub_f = λ a b. a - b;
  neg_f = λ a. a;
  div_16 = λ a. a;
  is_neg = λ a. false;
}

abbrev carrier : Carrier ℕ
carrier = record { of_int = λ z. (z, 0); of_double = λ x. some (pos x, x) }

carrier-CarrierLaws : CarrierLaws fl carrier
carrier-CarrierLaws = record { int_arrives = λ z h. refl }

-- the two ends of stream 1
abbrev sending : Stream ℕ
sending = record {
  id = pos 1;
  is_sender = true;
  jitter = 0;
  cnt_error = pos 0;
  omitted_cnt_error = pos 0;
  packet_count = pos 10;
  omitted_packet_count = pos 0;
  peer_packet_count = pos 0;
  peer_omitted_packet_count = pos 0;
  bytes_sent = 1000;
  bytes_sent_omit = 0;
  bytes_received = 0;
  stream_retrans = pos 0;
  start_time = record { secs = 5; usecs = 0 };
  end_time = record { secs = 15; usecs = 0 };
  receiver_time = 0;
  sender_time = 0;
}

abbrev receiving : Stream ℕ
receiving = record sending {
  is_sender = false;
  packet_count = pos 9;
  cnt_error = pos 1;
  bytes_sent = 0;
  bytes_received = 900;
  jitter = 3;
}

abbrev sending_side : TestResults ℕ
sending_side = record {
  mode = sender;
  sender_has_retransmits = pos 0;
  other_side_has_retransmits = pos 0;
  cpu_util = (1, 2, 3);
  remote_cpu_util = (0, 0, 0);
  congestion_used = none;
  remote_congestion_used = none;
  streams = sending ∷ [];
}

abbrev receiving_side : TestResults ℕ
receiving_side = record sending_side { mode = receiver; streams = receiving ∷ [] }

receiving-AllReportable : AllReportable fl carrier carrier-CarrierLaws (pos 0) (receiving ∷ [])
unfolding time_diff
receiving-AllReportable = (
  record {
    id_fits = omega arith;
    id_is = refl;
    bytes_fit = omega arith;
    retrans_fit = omega arith;
    retrans_is = refl;
    errors_fit = omega arith;
    omitted_errors_fit = omega arith;
    packets_fit = omega arith;
    omitted_packets_fit = omega arith;
    jitter_arrives = ((pos 3, 3), refl);
    start_arrives = ((pos 0, 0), refl);
    end_arrives = ((pos 10, 10), refl);
  },
  tt,
)

sides-IsMatched :
    IsMatched fl
      (sending ∷ [])
      (map (values_of fl carrier carrier-CarrierLaws (pos 0)) (receiving ∷ []))
unfolding find_stream
sides-IsMatched = (refl, (sending, refl), tt)

get_results-send_results_example :
    let after = get_results fl (some (send_results fl carrier receiving_side)) sending_side in
    (after.1 ≡ none)
    × ((k : ℤ) (sp r : Stream ℕ)
        → find_stream fl k (sending ∷ []) ≡ some sp
        → find_stream fl k (receiving ∷ []) ≡ some r
        → (known : Stream ℕ) × (find_stream fl k after.0.streams ≡ some known)
          × Knows fl carrier carrier-CarrierLaws (pos 0) r known)
get_results-send_results_example =
    get_results-send_results fl carrier carrier-CarrierLaws sending_side receiving_side
      (((pos 1, 1), refl), ((pos 2, 2), refl), ((pos 3, 3), refl)) receiving-AllReportable
      sides-IsMatched
