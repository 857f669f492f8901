-- ===== src/Budget/Worse.antt =====
-- The peer's status (iperf_output_budget.c) only makes the local state of the output worse.
use iperf_swift.Prelude.{
  ℕ, ◌≤◌, ◌≡◌, ◌≢◌, ◌⊎◌, refl, inl, inr, true, false, ◌||◌, Option, none, some, [], arith,
  Bool-cases,
}
use iperf_swift.Output.{
  OutputState, missing, complete, truncated, discarded, invalid, OutputFormat, OutputReason,
  no_reason, byte_limit, node_limit, depth_limit, invalid_data, allocation_failure, read_failure,
  ServerOutput,
}
use iperf_swift.Output.Safe.{has_value, promises}
use iperf_swift.Budget.{discard_for}
use iperf_swift.Budget.Peer.{
  PeerStatus, decode_status, rank, contradicts, repeats, merge_state, merge_bytes, apply_status,
  apply_peer_status, is_no_reason, Field, state_of, nth_from,
}

-- What the client may rely on after it applied a status: `said` is what the peer's status decodes to.
pub record IsWorse (said : Option (OutputState × OutputFormat × OutputReason)) (o o' : ServerOutput)
    : Type 0 where
  pub state_in : rank o.state ≤ rank o'.state
  pub value_is : (o'.value ≡ o.value) ⊎ (o'.value ≡ none)
  pub described : has_value o'.value ≡ promises o'.state
  pub bytes_in : o.observed_bytes ≤ o'.observed_bytes
  pub present : o'.state ≢ missing
  pub agreed :
      o'.state ≡ complete → (o.state ≡ complete) × (said ≡ some (complete, o'.format, no_reason))

invalid-IsWorse :
    (said : Option (OutputState × OutputFormat × OutputReason)) (o : ServerOutput)
    → IsWorse said o (discard_for invalid_data o)
unfolding discard_for
invalid-IsWorse said o = ground arith

no_reason_of : (why : OutputReason) → is_no_reason why ≡ true → why ≡ no_reason
no_reason_of no_reason h = refl
no_reason_of byte_limit h = absurd (ground arith)
no_reason_of node_limit h = absurd (ground arith)
no_reason_of depth_limit h = absurd (ground arith)
no_reason_of invalid_data h = absurd (ground arith)
no_reason_of allocation_failure h = absurd (ground arith)
no_reason_of read_failure h = absurd (ground arith)

merge-IsWorse :
    (state : OutputState) (kind : OutputFormat) (why : OutputReason) (bytes : Option ℕ)
    (o : ServerOutput)
    → 1 ≤ rank state
    → has_value o.value ≡ promises o.state
    → contradicts o state kind why ≡ false
    → IsWorse
        (some (state, kind, why))
        o
        (merge_bytes bytes (record (merge_state state why o) { format = kind }))
unfolding contradicts merge_state merge_bytes discard_for
merge-IsWorse missing kind why bytes o said has fine = absurd (ground arith)
merge-IsWorse complete kind why none o said has fine = ground (arith, no_reason_of why)
merge-IsWorse complete kind why (some bytes) o said has fine = ground (arith, no_reason_of why)
merge-IsWorse truncated kind why none o said has fine = ground arith
merge-IsWorse truncated kind why (some bytes) o said has fine = ground arith
merge-IsWorse discarded kind why none o said has fine = ground arith
merge-IsWorse discarded kind why (some bytes) o said has fine = ground arith
merge-IsWorse invalid kind why none o said has fine = ground arith
merge-IsWorse invalid kind why (some bytes) o said has fine = ground arith

state_of_lem : (f : Field) (state : OutputState) → state_of f ≡ some state → 1 ≤ rank state
unfolding state_of nth_from
state_of_lem f state e = ground arith

decode_status_lem :
    (s : PeerStatus) (state : OutputState) (kind : OutputFormat) (why : OutputReason)
    → decode_status s ≡ some (state, kind, why)
    → 1 ≤ rank state
unfolding decode_status
decode_status_lem s state kind why e = ground (arith, state_of_lem s.state state)

status-IsWorse :
    (said : Option (OutputState × OutputFormat × OutputReason)) (s : PeerStatus) (o : ServerOutput)
    → decode_status s ≡ said
    → has_value o.value ≡ promises o.state
    → IsWorse said o (apply_status s o)
unfolding apply_status
status-IsWorse none s o e has = rw (apply_status, e) (invalid-IsWorse none o)
status-IsWorse (some (state, kind, why)) s o e has =
    rw (apply_status, e)
      (elim (Bool-cases (contradicts o state kind why || repeats [] s.names)) [
        | inl bad ↦ rw bad (invalid-IsWorse (some (state, kind, why)) o)
        | inr good ↦ rw good (
            merge-IsWorse state kind why s.bytes o (decode_status_lem s state kind why e) has
              (ground arith))
      ])

-- A status of the peer never makes the local state of an output better, keeps the bytes or drops
-- them, leaves bytes exactly in the states that promise some, never lowers the number of observed
-- bytes, and never leaves a missing output. The output is complete only if it was so locally and the
-- peer says so, in the same format and without a reason.
pub apply_peer_status-IsWorse :
    (s : PeerStatus) (o : ServerOutput)
    → has_value o.value ≡ promises o.state
    → IsWorse (decode_status s) o (apply_peer_status (some s) o)
unfolding apply_peer_status
apply_peer_status-IsWorse s o has = status-IsWorse (decode_status s) s o refl has
