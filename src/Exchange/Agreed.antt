-- ===== src/Exchange/Agreed.antt =====
-- The results of one side, sent and received by the other.
use iperf_swift.Prelude.{
  if_both, ℕ, ◌<◌, ◌^◌, true, false, ◌≡◌, refl, ap, ◌∙◌, inl, inr, Bool-cases, Option, none, some,
  List, [], ◌∷◌, map, if◌then◌else◌, arith,
}
use iperf_swift.Prelude.Int.{ℤ, pos, negsuc}
use iperf_swift.Prelude.Words.{u64}
use iperf_swift.Time.{time_diff}
use iperf_swift.Udp.{Floats}
use iperf_swift.Output.Root.{same_key}
use iperf_swift.Errors.{Error}
use iperf_swift.Params.{is_receiver}
use iperf_swift.Exchange.{
  Stream, TestResults, Carrier, send_stream, send_results, bytes_transferred, retransmits,
}
use iperf_swift.Exchange.Receive.{
  note_congestion, receive_answer, Values, to_i32, same_id, read_values, merge, find_stream,
  get_results,
}
use iperf_swift.Exchange.Both.{Reads, find_values, IsMatched, updated, receive-all}

-- a number below 2^53 in size, which a `double` holds
abbrev pub Fits : ℤ → Type 0
Fits (pos n) = n < 2 ^ 53
Fits (negsuc n) = n < 2 ^ 53

-- Such numbers arrive as they were.
pub record CarrierLaws (fl : Floats) (carrier : Carrier fl.F) : Type 0 where
  pub int_arrives : (z : ℤ) → Fits z → (carrier.of_int z).0 ≡ z

module _ (fl : Floats) (carrier : Carrier fl.F) (laws : CarrierLaws fl carrier) where
  open fl use {F, in_secs}
  open carrier use {of_int, of_double}
  open laws use {int_arrives}

  -- a `double` that is not printed as null
  abbrev pub Arrives : F → Type 0
  Arrives x = (number : ℤ × F) × (of_double x ≡ some number)

  -- as which `double` it arrives
  abbrev pub arrived : F → F
  arrived x = elim (of_double x) [ some number ↦ number.1 | none ↦ fl.zero_f ]

  -- The counters of a stream fit their way: an `int` is an `int`, and the `double`s are finite.
  pub record IsReportable (has : ℤ) (r : Stream F) : Type 0 where
    pub id_fits : Fits r.id
    pub id_is : to_i32 r.id ≡ r.id
    pub bytes_fit : bytes_transferred fl carrier r < 2 ^ 53
    pub retrans_fit : Fits (retransmits fl carrier has r)
    pub retrans_is : to_i32 (retransmits fl carrier has r) ≡ retransmits fl carrier has r
    pub errors_fit : Fits r.cnt_error
    pub omitted_errors_fit : Fits r.omitted_cnt_error
    pub packets_fit : Fits r.packet_count
    pub omitted_packets_fit : Fits r.omitted_packet_count
    pub jitter_arrives : Arrives r.jitter
    pub start_arrives : Arrives (in_secs (time_diff r.start_time r.start_time).0)
    pub end_arrives : Arrives (in_secs (time_diff r.start_time r.end_time).0)

  -- what arrives of a stream
  abbrev pub values_of : ℤ → Stream F → Values F
  values_of has r = record {
    sid = r.id;
    bytes = bytes_transferred fl carrier r;
    retransmits = retransmits fl carrier has r;
    jitter = arrived r.jitter;
    cerror = r.cnt_error;
    pcount = r.packet_count;
    omitted = some (r.omitted_cnt_error, r.omitted_packet_count);
    times =
        fl.sub_f (arrived (in_secs (time_diff r.start_time r.end_time).0))
          (arrived (in_secs (time_diff r.start_time r.start_time).0));
  }

  read-send :
      (has : ℤ) (r : Stream F)
      → IsReportable has r
      → read_values fl (send_stream fl carrier has r) ≡ some (values_of has r)
  unfolding read_values send_stream same_key
  read-send has r fits =
      let b = bytes_transferred fl carrier r in
      let bytes_fit = fits.bytes_fit in
      let bytes_is : u64 b ≡ b = omega arith in
      rw
        (
          int_arrives r.id fits.id_fits,
          fits.id_is,
          int_arrives (pos b) fits.bytes_fit,
          bytes_is,
          int_arrives (retransmits fl carrier has r) fits.retrans_fit,
          fits.retrans_is,
          fits.jitter_arrives.1,
          fits.start_arrives.1,
          fits.end_arrives.1,
          int_arrives r.cnt_error fits.errors_fit,
          int_arrives r.packet_count fits.packets_fit,
          int_arrives r.omitted_cnt_error fits.omitted_errors_fit,
          int_arrives r.omitted_packet_count fits.omitted_packets_fit,
        )
        (rw (values_of, arrived, fits.jitter_arrives.1, fits.start_arrives.1, fits.end_arrives.1)
          refl)

  -- each stream of a side can be reported
  abbrev pub AllReportable : ℤ → List (Stream F) → Type 0
  AllReportable has [] = Unit {0}
  AllReportable has (r ∷ rs) = IsReportable has r × AllReportable has rs

  read-all :
      (has : ℤ) (rs : List (Stream F))
      → AllReportable has rs
      → Reads fl (map (send_stream fl carrier has) rs) (map (values_of has) rs)
  read-all has [] all = tt
  read-all has (r ∷ rs) all = (read-send has r all.0, read-all has rs all.1)

  find_values-map :
      (has : ℤ) (rs : List (Stream F)) (k : ℤ) (r : Stream F)
      → find_stream fl k rs ≡ some r
      → find_values fl k (map (values_of has) rs) ≡ some (values_of has r)
  unfolding find_stream
  find_values-map has [] k r found = absurd (ground arith)
  find_values-map has (first ∷ rs) k r found = elim (Bool-cases (same_id first.id k)) [
    | inl same ↦ let e : first ≡ r = ground arith in rw same (ap (λ x. some (values_of has x)) e)
    | inr other ↦ rw other (find_values-map has rs k r (ground arith))
  ]

  -- What a stream holds of its peer `r`: how many packets it had, and what only the other end knows.
  abbrev pub Knows : ℤ → Stream F → Stream F → Type 0
  Knows has r sp =
      (sp.peer_packet_count ≡ r.packet_count)
      × (sp.peer_omitted_packet_count ≡ r.omitted_packet_count)
      × (sp.is_sender ≡ true
          → (sp.bytes_received ≡ bytes_transferred fl carrier r)
            × (sp.jitter ≡ arrived r.jitter)
            × (sp.cnt_error ≡ r.cnt_error)
            × (sp.omitted_cnt_error ≡ r.omitted_cnt_error))
      × (sp.is_sender ≡ false
          → (sp.bytes_sent ≡ bytes_transferred fl carrier r)
            × (sp.stream_retrans ≡ retransmits fl carrier has r))

  merge-Knows : (has : ℤ) (r sp : Stream F) → Knows has r (merge fl (values_of has r) sp)
  unfolding merge
  merge-Knows has r sp =
      if_both (Knows has r) sp.is_sender _ _
        (λ on. (refl, refl, (λ h. (refl, refl, refl, refl)), (λ h. absurd (ground arith))))
        (λ off. (refl, refl, (λ h. absurd (ground arith)), (λ h. (refl, refl))))

  note-error :
      (used : Option (List ℕ)) (t : TestResults F) (e : Option Error)
      → (note_congestion fl used (t, e)).1 ≡ e
  note-error none t e = refl
  note-error (some w) t e = refl

  note-streams :
      (used : Option (List ℕ)) (t : TestResults F) (e : Option Error)
      → (note_congestion fl used (t, e)).0.streams ≡ t.streams
  note-streams none t e = refl
  note-streams (some w) t e = refl

  -- The results go through up to the streams.
  answered-is :
      (a b : TestResults F) (total : Arrives b.cpu_util.0) (user : Arrives b.cpu_util.1)
      (system : Arrives b.cpu_util.2)
      → get_results fl (some (send_results fl carrier b)) a
        ≡ note_congestion fl b.congestion_used (
            receive_answer fl
              (total.0.1, user.0.1, system.0.1)
              (of_int (if is_receiver b.mode then negsuc 0 else b.sender_has_retransmits)).0
              (send_results fl carrier b)
              a)
  unfolding get_results send_results same_key
  answered-is a b total user system = rw (total.1, user.1, system.1) refl

  -- The results `b` of one side, sent and received by the other side `a`. Numbers below 2^53 arrive as
  -- they were, and the load of the processor and the jitter and times of each stream as numbers; every
  -- stream of `b` can be reported, has an id of its own and has a stream in `a`. Then `get_results` goes
  -- through, and each stream of `a` that has a peer in `b` is there with what the peer counted, and with
  -- the jitter as it arrives.
  pub get_results-send_results :
      (a b : TestResults F)
      → Arrives b.cpu_util.0 × Arrives b.cpu_util.1 × Arrives b.cpu_util.2
      → AllReportable b.sender_has_retransmits b.streams
      → IsMatched fl a.streams (map (values_of b.sender_has_retransmits) b.streams)
      → let after = get_results fl (some (send_results fl carrier b)) a in
        (after.1 ≡ none)
        × ((k : ℤ) (sp r : Stream F)
            → find_stream fl k a.streams ≡ some sp
            → find_stream fl k b.streams ≡ some r
            → (known : Stream F) × (find_stream fl k after.0.streams ≡ some known)
              × Knows b.sender_has_retransmits r known)
  unfolding get_results send_results same_key
  get_results-send_results a b (total, user, system) all matched =
      let has = b.sender_has_retransmits in
      let received =
        receive-all fl (map (send_stream fl carrier has) b.streams) (map (values_of has) b.streams)
          a.streams (read-all has b.streams all) matched in
      let sent = send_results fl carrier b in
      let remote : F × F × F = (total.0.1, user.0.1, system.0.1) in
      let answered =
        receive_answer fl remote (of_int (if is_receiver b.mode then negsuc 0 else has)).0 sent a in
      let arrives = answered-is a b total user system in
      (
        ap (λ r. r.1) arrives ∙ (note-error b.congestion_used answered.0 answered.1 ∙ received.0),
        λ k sp r is_sp is_r. (
          merge fl (values_of has r) sp,
          ap (λ r. find_stream fl k r.0.streams) arrives
              ∙ (ap (find_stream fl k) (note-streams b.congestion_used answered.0 answered.1)
                  ∙ (received.1 k
                      ∙ (ap (λ v. updated fl v (find_stream fl k a.streams))
                            (find_values-map has b.streams k r is_r)
                          ∙ ap (updated fl (some (values_of has r))) is_sp))),
          merge-Knows has r sp,
        ),
      )
