-- ===== src/Exchange/Receive.antt =====
-- get_results of iperf_api.c, on an object that was read.
use iperf_swift.Prelude.{
  codes, ℕ, ◌-◌, ◌%◌, ◌^◌, Bool, false, Option, none, some, List, [], ◌∷◌, if◌then◌else◌, ◌==◌,
}
use iperf_swift.Prelude.Int.{ℤ, pos, negsuc}
use iperf_swift.Prelude.Words.{u64}
use iperf_swift.Udp.{Floats}
use iperf_swift.Errors.{Error, ie_recv_results, ie_stream_id}
use iperf_swift.Params.{sender, receiver, bidirectional_mode, i32}
use iperf_swift.Params.Receive.{is_positive}
use iperf_swift.Exchange.{Stream, TestResults, Numbers, Answer}

infixl 1 ◌>>=◌
abbrev ◌>>=◌ : {A B : Type 0} → Option A → (A → Option B) → Option B
none >>= f = none
some a >>= f = f a

-- an assignment of a `valueint` to `uint64_t` and to `int`
abbrev pub to_u64 : ℤ → ℕ
to_u64 (pos n) = u64 n
to_u64 (negsuc n) = 2 ^ 64 - 1 - n % 2 ^ 64

abbrev pub to_i32 : ℤ → ℤ
to_i32 (pos n) = i32 n
to_i32 (negsuc n) = i32 (2 ^ 32 - 1 - n % 2 ^ 32)

abbrev pub same_id : ℤ → ℤ → Bool
same_id (pos a) (pos b) = a == b
same_id (negsuc a) (negsuc b) = a == b
same_id _ _ = false

-- The values of one object of the array. `times`: "end_time" minus "start_time", if both are there.
pub record Values (F : Type 0) : Type 0 where
  pub sid : ℤ
  pub bytes : ℕ
  pub retransmits : ℤ
  pub jitter : F
  pub cerror : ℤ
  pub pcount : ℤ
  pub omitted : Option (ℤ × ℤ)
  pub times : F

-- what follows for an older peer, which sends no omitted counts: -1 stands for an unknown count
abbrev guess_omitted : ℤ → ℤ → ℤ
guess_omitted omitted_packets cerror =
    if is_positive omitted_packets then (if is_positive cerror then negsuc 0 else pos 0) else cerror

module _ (fl : Floats) where
  open fl use {F, zero_f, sub_f}

  -- the omitted counts, both or neither
  abbrev both_omitted : Option (ℤ × F) → Option (ℤ × F) → Option (Option (ℤ × ℤ))
  both_omitted none none = some none
  both_omitted (some e) (some p) = some (some (e.0, p.0))
  both_omitted _ _ = none

  abbrev pub elapsed : Option (ℤ × F) → Option (ℤ × F) → F
  elapsed (some start) (some end) = sub_f end.1 start.1
  elapsed _ _ = zero_f

  unfoldable pub read_values : Numbers F → Option (Values F)
  read_values j = do
    id ← j (codes "id")
    bytes ← j (codes "bytes")
    retransmits ← j (codes "retransmits")
    jitter ← j (codes "jitter")
    errors ← j (codes "errors")
    packets ← j (codes "packets")
    omitted ← both_omitted (j (codes "omitted_errors")) (j (codes "omitted_packets"))
    some (record {
      sid = to_i32 id.0;
      bytes = to_u64 bytes.0;
      retransmits = to_i32 retransmits.0;
      jitter = jitter.1;
      cerror = errors.0;
      pcount = packets.0;
      omitted = omitted;
      times = elapsed (j (codes "start_time")) (j (codes "end_time"));
    })

  abbrev omitted_errors : Values F → Stream F → ℤ
  omitted_errors v sp = elim v.omitted [
    | some o ↦ o.0
    | none ↦ guess_omitted sp.omitted_packet_count v.cerror
  ]

  -- what a sending stream takes of the receiver's values, and a receiving one of the sender's
  abbrev pub merge_sender : Values F → Stream F → Stream F
  merge_sender v sp = record sp {
    jitter = v.jitter;
    cnt_error = v.cerror;
    peer_packet_count = v.pcount;
    bytes_received = v.bytes;
    omitted_cnt_error = omitted_errors v sp;
    peer_omitted_packet_count = elim v.omitted [ some o ↦ o.1 | none ↦ sp.omitted_packet_count ];
    receiver_time = v.times;
  }

  abbrev pub merge_receiver : Values F → Stream F → Stream F
  merge_receiver v sp = record sp {
    peer_packet_count = v.pcount;
    bytes_sent = v.bytes;
    stream_retrans = v.retransmits;
    peer_omitted_packet_count = elim v.omitted [ some o ↦ o.1 | none ↦ v.pcount ];
    sender_time = v.times;
  }

  unfoldable pub merge : Values F → Stream F → Stream F
  merge v sp = if sp.is_sender then merge_sender v sp else merge_receiver v sp

  -- the first stream with an id
  unfoldable pub find_stream : ℤ → List (Stream F) → Option (Stream F)
  find_stream sid [] = none
  find_stream sid (sp ∷ streams) =
      let later = find_stream sid streams in if same_id sp.id sid then some sp else later

  -- the streams with the values at the first of that id, if there is one
  unfoldable pub merge_stream : Values F → List (Stream F) → Option (List (Stream F))
  unfolding merge
  merge_stream v [] = none
  merge_stream v (sp ∷ streams) =
      let later = merge_stream v streams in
      if same_id sp.id v.sid
      then some (merge v sp ∷ streams)
      else elim later [ none ↦ none | some merged ↦ some (sp ∷ merged) ]

  -- one turn of the loop: the streams and the error that it sets
  unfoldable pub receive_stream : Numbers F → List (Stream F) → List (Stream F) × Option Error
  unfolding read_values merge_stream
  receive_stream j streams = elim (read_values j) [
    | none ↦ (streams, some ie_recv_results)
    | some v ↦ elim (merge_stream v streams) [
      | none ↦ (streams, some ie_stream_id)
      | some merged ↦ (merged, none)
    ]
  ]

  -- the later error, as the last that was set
  abbrev pub last_error : Option Error → Option Error → Option Error
  last_error earlier none = earlier
  last_error earlier (some e) = some e

  unfoldable pub receive_streams :
      List (Numbers F) → List (Stream F) → List (Stream F) × Option Error
  unfolding receive_stream
  receive_streams [] streams = (streams, none)
  receive_streams (j ∷ rest) streams =
      let here = receive_stream j streams in
      let later = receive_streams rest here.0 in (later.0, last_error here.1 later.1)

  abbrev note_retransmits : ℤ → TestResults F → TestResults F
  note_retransmits has t = elim t.mode [
    | sender ↦ t
    | receiver ↦ record t { sender_has_retransmits = has; other_side_has_retransmits = pos 0 }
    | bidirectional_mode ↦ record t { other_side_has_retransmits = has }
  ]

  -- with the four numbers of the object
  abbrev pub receive_answer :
      F × F × F → ℤ → Answer F → TestResults F → TestResults F × Option Error
  receive_answer remote has answer t =
      let noted = note_retransmits (to_i32 has) (record t { remote_cpu_util = remote }) in
      elim answer.stream_array [
        | none ↦ (noted, some ie_recv_results)
        | some array ↦
            let (streams, e) = receive_streams array t.streams in
            (record noted { streams = streams }, e)
      ]

  abbrev pub four_numbers : Numbers F → Option ((F × F × F) × ℤ)
  four_numbers j = do
    total ← j (codes "cpu_util_total")
    user ← j (codes "cpu_util_user")
    system ← j (codes "cpu_util_system")
    has ← j (codes "sender_has_retransmits")
    some ((total.1, user.1, system.1), has.0)

  abbrev pub note_congestion :
      Option (List ℕ) → TestResults F × Option Error → TestResults F × Option Error
  note_congestion none r = r
  note_congestion (some used) (t, e) = (record t { remote_congestion_used = some used }, e)

  -- The new test and the error; none means that it returns 0. `answer` is none where no object was
  -- read.
  unfoldable pub get_results : Option (Answer F) → TestResults F → TestResults F × Option Error
  unfolding receive_streams
  get_results none t = (t, some ie_recv_results)
  get_results (some answer) t = note_congestion answer.used (elim (four_numbers answer.numbers) [
    | none ↦ (t, some ie_recv_results)
    | some (remote, has) ↦ receive_answer remote has answer t
  ])
