-- ===== src/Exchange/Both.antt =====
-- What the two sides know of one another's streams when the results were exchanged.
use iperf_swift.Prelude.{
  if_both, true, false, ◌≤◌, ◌≡◌, refl, ap, subst, ◌∙◌, inl, inr, Bool-cases, Option, none, some,
  List, [], ◌∷◌, if◌then◌else◌, arith,
}
use iperf_swift.Prelude.Int.{ℤ, pos, negsuc}
use iperf_swift.Udp.{Floats}
use iperf_swift.Errors.{Error}
use iperf_swift.Exchange.{Stream, Numbers}
use iperf_swift.Exchange.Receive.{
  Values, same_id, read_values, merge, find_stream, merge_stream, receive_stream, receive_streams,
  last_error,
}

same_id-eq : (a b : ℤ) → same_id a b ≡ true → a ≡ b
same_id-eq (pos a) (pos b) h = ground arith
same_id-eq (negsuc a) (negsuc b) h = ground arith
same_id-eq (pos a) (negsuc b) h = absurd (ground arith)
same_id-eq (negsuc a) (pos b) h = absurd (ground arith)

same_id_refl : (a : ℤ) → same_id a a ≡ true
same_id_refl (pos a) = ground arith
same_id_refl (negsuc a) = ground arith

same_id_comm : (a b : ℤ) → same_id a b ≡ false → same_id b a ≡ false
same_id_comm (pos a) (pos b) h = ground arith
same_id_comm (negsuc a) (negsuc b) h = ground arith
same_id_comm (pos a) (negsuc b) h = refl
same_id_comm (negsuc a) (pos b) h = refl

module _ (fl : Floats) where
  open fl use {F}

  -- merging does not touch the id
  merge-id : (v : Values F) (sp : Stream F) → (merge fl v sp).id ≡ sp.id
  unfolding merge
  merge-id v sp =
      if_both (λ (r : Stream F). r.id ≡ sp.id) sp.is_sender _ _ (λ on. refl) (λ off. refl)

  -- Merging changes the stream that a search for the id finds, and no other.
  abbrev Merges : Values F → List (Stream F) → Stream F → List (Stream F) → Type 0
  Merges v streams sp merged =
      (merge_stream fl v streams ≡ some merged)
      × (find_stream fl v.sid merged ≡ some (merge fl v sp))
      × ((k : ℤ) → same_id v.sid k ≡ false → find_stream fl k merged ≡ find_stream fl k streams)

  merge-here :
      (v : Values F) (first : Stream F) (streams : List (Stream F)) (sp : Stream F)
      → same_id first.id v.sid ≡ true
      → find_stream fl v.sid (first ∷ streams) ≡ some sp
      → Merges v (first ∷ streams) sp (merge fl v first ∷ streams)
  unfolding merge_stream find_stream
  merge-here v first streams sp here found =
      let e = same_id-eq first.id v.sid here in
      let id = merge-id v first in
      let same : first ≡ sp = ground arith in
      (
        rw (merge_stream, here),
        rw (find_stream, id, here) (ap (λ x. some (merge fl v x)) same),
        λ k other. let no : same_id first.id k ≡ false = rw e other in rw (find_stream, id, no),
      )

  merge-there :
      (v : Values F) (first : Stream F) (streams : List (Stream F)) (sp : Stream F)
      (merged : List (Stream F))
      → same_id first.id v.sid ≡ false
      → Merges v streams sp merged
      → Merges v (first ∷ streams) sp (first ∷ merged)
  unfolding merge_stream find_stream
  merge-there v first streams sp merged there (is_merged, finds, keeps) = (
    rw (merge_stream, there, is_merged),
    rw (find_stream, there) finds,
    λ k other. ap (λ r. if same_id first.id k then some first else r) (keeps k other),
  )

  merge_stream-Merges :
      (v : Values F) (streams : List (Stream F)) (sp : Stream F)
      → find_stream fl v.sid streams ≡ some sp
      → (merged : List (Stream F)) × Merges v streams sp merged
  unfolding find_stream
  merge_stream-Merges v [] sp found = absurd (ground arith)
  merge_stream-Merges v (first ∷ streams) sp found = elim (Bool-cases (same_id first.id v.sid)) [
    | inl here ↦ (merge fl v first ∷ streams, merge-here v first streams sp here found)
    | inr there ↦
        let (merged, m) = merge_stream-Merges v streams sp (ground arith) in
        (first ∷ merged, merge-there v first streams sp merged there m)
  ]

  -- The values of the objects, one for each.
  abbrev pub Reads : List (Numbers F) → List (Values F) → Type 0
  Reads [] [] = Unit {0}
  Reads (j ∷ js) (v ∷ vs) = (read_values fl j ≡ some v) × Reads js vs
  Reads _ _ = 1 ≤ 0

  -- the values for an id, if there are any
  abbrev pub find_values : ℤ → List (Values F) → Option (Values F)
  find_values k [] = none
  find_values k (v ∷ vs) = let later = find_values k vs in if same_id v.sid k then some v else later

  -- No two have the same id, and each has a stream.
  abbrev pub IsMatched : List (Stream F) → List (Values F) → Type 0
  IsMatched streams [] = Unit {0}
  IsMatched streams (v ∷ vs) =
      (find_values v.sid vs ≡ none)
      × ((sp : Stream F) × (find_stream fl v.sid streams ≡ some sp))
      × IsMatched streams vs

  -- what a stream becomes
  abbrev pub updated : Option (Values F) → Option (Stream F) → Option (Stream F)
  updated none sp = sp
  updated (some v) none = none
  updated (some v) (some sp) = some (merge fl v sp)

  IsMatched-kept :
      (streams merged : List (Stream F)) (v : Values F) (vs : List (Values F))
      → find_values v.sid vs ≡ none
      → ((k : ℤ) → same_id v.sid k ≡ false → find_stream fl k merged ≡ find_stream fl k streams)
      → IsMatched streams vs
      → IsMatched merged vs
  IsMatched-kept streams merged v [] fresh keeps matched = tt
  IsMatched-kept streams merged v (w ∷ vs) fresh keeps (alone, (sp, found), rest) = (
    alone,
    (sp, keeps w.sid (same_id_comm w.sid v.sid (ground arith)) ∙ found),
    IsMatched-kept streams merged v vs (ground arith) keeps rest,
  )

  -- the values at the head are those of their id, the rest those of the others
  update-cons :
      (streams merged result : List (Stream F)) (v : Values F) (vs : List (Values F))
      (sp : Stream F) (k : ℤ)
      → find_values v.sid vs ≡ none
      → find_stream fl v.sid streams ≡ some sp
      → Merges v streams sp merged
      → ((i : ℤ) → find_stream fl i result ≡ updated (find_values i vs) (find_stream fl i merged))
      → find_stream fl k result ≡ updated (find_values k (v ∷ vs)) (find_stream fl k streams)
  update-cons streams merged result v vs sp k alone found m later =
      elim (Bool-cases (same_id v.sid k)) [
        | inl same ↦
            subst
              (λ i.
                find_stream fl i result
                ≡ updated (find_values i (v ∷ vs)) (find_stream fl i streams))
              (same_id-eq v.sid k same)
              (later v.sid
                ∙ (ap (λ r. updated r (find_stream fl v.sid merged)) alone
                    ∙ (m.1 ∙ rw (same_id_refl v.sid, found) refl)))
        | inr other ↦ rw other (later k ∙ ap (updated (find_values k vs)) (m.2 k other))
      ]

  pub receive-all :
      (js : List (Numbers F)) (vs : List (Values F)) (streams : List (Stream F))
      → Reads js vs
      → IsMatched streams vs
      → ((receive_streams fl js streams).1 ≡ none)
        × ((k : ℤ)
            → find_stream fl k (receive_streams fl js streams).0
              ≡ updated (find_values k vs) (find_stream fl k streams))
  unfolding receive_streams receive_stream
  receive-all [] [] streams reads matched = (refl, λ k. refl)
  receive-all [] (v ∷ vs) streams reads matched = absurd (omega arith)
  receive-all (j ∷ js) [] streams reads matched = absurd (omega arith)
  receive-all (j ∷ js) (v ∷ vs) streams reads matched =
      let (alone, (sp, found), rest) = matched in
      let (merged, m) = merge_stream-Merges v streams sp found in
      let here : receive_stream fl j streams ≡ (merged, none) = rw (receive_stream, reads.0, m.0) in
      let opened =
        ap
          (λ (h : List (Stream F) × Option Error).
            ((receive_streams fl js h.0).0, last_error fl h.1 (receive_streams fl js h.0).1))
          here in
      let later =
        receive-all js vs merged reads.1 (IsMatched-kept streams merged v vs alone m.2 rest) in
      (
        ap (λ (r : List (Stream F) × Option Error). r.1) opened ∙ ap (last_error fl none) later.0,
        λ k.
            ap (λ (r : List (Stream F) × Option Error). find_stream fl k r.0) opened
            ∙ update-cons streams merged (receive_streams fl js merged).0 v vs sp k alone found m
                later.1,
      )
