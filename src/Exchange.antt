-- ===== src/Exchange.antt =====
-- The exchange of the results of a test (iperf_api.c): send_results and get_results on the streams.
-- The output of the server, which goes with the results, is that of Budget and Output.
pub mod Receive
pub mod Both
pub mod Agreed
mod Tests
use iperf_swift.Prelude.{
  codes, ℕ, ◌-◌, ◌%◌, ◌^◌, Bool, true, false, not, ◌&&◌, Option, none, some, List, [], ◌∷◌, map,
  if◌then◌else◌, ltb, ◌==◌,
}
use iperf_swift.Prelude.Int.{ℤ, pos, negsuc}
use iperf_swift.Prelude.Words.{u64, sub_u64}
use iperf_swift.Time.{Time, time_diff}
use iperf_swift.Udp.{Floats}
use iperf_swift.Output.Root.{same_key}
use iperf_swift.Params.{Mode, is_receiver, i32}
use iperf_swift.Params.Receive.{is_zero}

-- The fields of `struct iperf_stream` and of its result that the exchange uses. The `int64_t` counters
-- and the retransmissions are integers, the numbers of bytes, of type `uint64_t`, natural numbers.
pub record Stream (F : Type 0) : Type 0 where
  pub id : ℤ
  pub is_sender : Bool
  pub jitter : F
  pub cnt_error : ℤ
  pub omitted_cnt_error : ℤ
  pub packet_count : ℤ
  pub omitted_packet_count : ℤ
  pub peer_packet_count : ℤ
  pub peer_omitted_packet_count : ℤ
  pub bytes_sent : ℕ
  pub bytes_sent_omit : ℕ
  pub bytes_received : ℕ
  pub stream_retrans : ℤ
  pub start_time : Time
  pub end_time : Time
  pub receiver_time : F
  pub sender_time : F

-- and those of `struct iperf_test`
pub record TestResults (F : Type 0) : Type 0 where
  pub mode : Mode
  pub sender_has_retransmits : ℤ
  pub other_side_has_retransmits : ℤ
  pub cpu_util : F × F × F
  pub remote_cpu_util : F × F × F
  pub congestion_used : Option (List ℕ)
  pub remote_congestion_used : Option (List ℕ)
  pub streams : List (Stream F)

-- The numbers of an object by their names: `valueint` and `valuedouble`.
abbrev pub Numbers : Type 0 → Type 0
Numbers F = List ℕ → Option (ℤ × F)

-- The object of the results: its numbers, the array "streams" if there is one, and the text
-- "congestion_used".
pub record Answer (F : Type 0) : Type 0 where
  pub numbers : Numbers F
  pub stream_array : Option (List (Numbers F))
  pub used : Option (List ℕ)

-- What cJSON makes of a number that is added as an integer or as a `double`, printed by one side and
-- parsed by the other: a `double` may change, and one that is not finite arrives as null, no number.
pub record Carrier (F : Type 0) : Type 0 where
  pub of_int : ℤ → ℤ × F
  pub of_double : F → Option (ℤ × F)

-- the number that stands under a name
abbrev pub find_number : {F : Type 0} → List (List ℕ × Option (ℤ × F)) → Numbers F
find_number [] key = none
find_number ((name, number) ∷ rest) key =
    let later = find_number rest key in if same_key key name then number else later

module _ (fl : Floats) (carrier : Carrier fl.F) where
  open fl use {F, in_secs}
  open carrier use {of_int, of_double}

  abbrev pub bytes_transferred : Stream F → ℕ
  bytes_transferred sp =
      if sp.is_sender then sub_u64 sp.bytes_sent sp.bytes_sent_omit else sp.bytes_received

  abbrev pub retransmits : ℤ → Stream F → ℤ
  retransmits sender_has_retransmits sp =
      if sp.is_sender && not (is_zero sender_has_retransmits) then sp.stream_retrans else negsuc 0

  -- one object of the array
  unfoldable pub send_stream : ℤ → Stream F → Numbers F
  send_stream sender_has_retransmits sp = find_number (
      (codes "id", some (of_int sp.id))
      ∷ (codes "bytes", some (of_int (pos (bytes_transferred sp))))
      ∷ (codes "retransmits", some (of_int (retransmits sender_has_retransmits sp)))
      ∷ (codes "jitter", of_double sp.jitter)
      ∷ (codes "errors", some (of_int sp.cnt_error))
      ∷ (codes "omitted_errors", some (of_int sp.omitted_cnt_error))
      ∷ (codes "packets", some (of_int sp.packet_count))
      ∷ (codes "omitted_packets", some (of_int sp.omitted_packet_count))
      ∷ (codes "start_time", of_double (in_secs (time_diff sp.start_time sp.start_time).0))
      ∷ (codes "end_time", of_double (in_secs (time_diff sp.start_time sp.end_time).0))
      ∷ [])

  -- the object, where the memory for it can be had
  unfoldable pub send_results : TestResults F → Answer F
  unfolding send_stream
  send_results t = record {
    numbers = find_number (
        (codes "cpu_util_total", of_double t.cpu_util.0)
        ∷ (codes "cpu_util_user", of_double t.cpu_util.1)
        ∷ (codes "cpu_util_system", of_double t.cpu_util.2)
        ∷ (
          codes "sender_has_retransmits",
          some (of_int (if is_receiver t.mode then negsuc 0 else t.sender_has_retransmits)),
        )
        ∷ []);
    stream_array = some (map (send_stream t.sender_has_retransmits) t.streams);
    used = t.congestion_used;
  }
