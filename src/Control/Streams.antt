-- ===== src/Control/Streams.antt =====
-- The streams of a test are accepted, one turn after the other, until the test is launched.
use iperf_swift.Prelude.{
  ℕ, zero, suc, ◌+◌, ◌≤◌, ◌==◌, true, false, ◌≡◌, refl, sym, ap, subst, ◌∙◌, inl, inr, Bool-cases,
  List, [], ◌∷◌, ◌++◌, arith,
}
use iperf_swift.Params.{Mode, sender, receiver, bidirectional_mode}
use iperf_swift.Control.{Event, listens, connected, stream_accepted}
use iperf_swift.Control.Server.{streams_to_rec, streams_to_send}
use iperf_swift.Control.Network.{Network, server_takes, turn, run, opened, peer_mode}
use iperf_swift.Control.Phases.{IsForced}
use iperf_swift.Control.Script.{
  takes, taking, launched, taking-IsOnly, take-rec, take-last_rec, take-send, take-last_send,
}

-- The streams that wait are accepted, and nothing else can happen.
abbrev pub Launches : Mode → ℕ → ℕ → Network → Type 0
Launches mode n p net =
    IsForced (takes p) net
    × ((es : List Event) × (run (takes p) net
          ≡ launched mode n (streams_to_rec (peer_mode mode) n) (streams_to_send (peer_mode mode) n)
              es))

-- one more in front
Launches-step :
    (mode : Mode) (n r s p : ℕ) (es : List Event) (net : Network)
    → turn server_takes (taking mode n r s (suc p) es) ≡ net
    → Launches mode n p net
    → Launches mode n (suc p) (taking mode n r s (suc p) es)
unfolding run
Launches-step mode n r s p es net e (forced, (fs, reaches)) = (
  (taking-IsOnly mode n r s (suc p) es, subst (IsForced (takes p)) (sym e) forced),
  (fs, ap (run (takes p)) e ∙ reaches),
)

Launches-last :
    (mode : Mode) (n r s p : ℕ) (es : List Event)
    → r ≡ streams_to_rec (peer_mode mode) n
    → s ≡ streams_to_send (peer_mode mode) n
    → p ≡ 0
    → Launches mode n p (launched mode n r s es)
unfolding run
Launches-last mode n r s zero es is_rec is_send last = (
  tt,
  (
    es,
    ap (λ r. launched mode n r s es) is_rec
        ∙ ap (λ s. launched mode n (streams_to_rec (peer_mode mode) n) s es) is_send,
  ),
)
Launches-last mode n r s (suc p) es is_rec is_send last = absurd (omega arith)

taking-Launches :
    (mode : Mode) (n r s p : ℕ) (es : List Event)
    → r ≤ streams_to_rec (peer_mode mode) n
    → s ≤ streams_to_send (peer_mode mode) n
    → r + s + suc p ≡ streams_to_rec (peer_mode mode) n + streams_to_send (peer_mode mode) n
    → Launches mode n (suc p) (taking mode n r s (suc p) es)
taking-Launches mode n r s zero es r_fits s_fits balance =
    elim (Bool-cases (r == streams_to_rec (peer_mode mode) n)) [
      | inl full ↦
          Launches-step mode n r s 0 es
            (launched mode n r (s + 1) (es ++ stream_accepted true ∷ []))
            (take-last_send mode n r s 0 es full (ground arith) (ground arith) refl)
            (Launches-last mode n r (s + 1) 0 (es ++ stream_accepted true ∷ []) (ground arith)
              (ground arith) refl)
      | inr short ↦
          Launches-step mode n r s 0 es
            (launched mode n (r + 1) s (es ++ stream_accepted false ∷ []))
            (take-last_rec mode n r s 0 es short (ground arith) refl)
            (Launches-last mode n (r + 1) s 0 (es ++ stream_accepted false ∷ []) (ground arith)
              (ground arith) refl)
    ]
taking-Launches mode n r s (suc p) es r_fits s_fits balance =
    elim (Bool-cases (r == streams_to_rec (peer_mode mode) n)) [
      | inl full ↦
          Launches-step mode n r s (suc p) es
            (taking mode n r (s + 1) (suc p) (es ++ stream_accepted true ∷ []))
            (take-send mode n r s (suc p) es full (ground arith) (ground arith))
            (taking-Launches mode n r (s + 1) p (es ++ stream_accepted true ∷ []) r_fits
              (ground arith) (ground arith))
      | inr short ↦
          Launches-step mode n r s (suc p) es
            (taking mode n (r + 1) s (suc p) (es ++ stream_accepted false ∷ []))
            (take-rec mode n r s (suc p) es short (ground arith))
            (taking-Launches mode n (r + 1) s p (es ++ stream_accepted false ∷ []) (ground arith)
              s_fits (ground arith))
    ]

opened-all :
    (mode : Mode) (n : ℕ)
    → opened mode n ≡ streams_to_rec (peer_mode mode) n + streams_to_send (peer_mode mode) n
opened-all sender n = omega arith
opened-all receiver n = omega arith
opened-all bidirectional_mode n = omega arith

pub opened-IsPositive : (mode : Mode) (n : ℕ) → 1 ≤ n → 1 ≤ opened mode n
opened-IsPositive mode n h = ground arith

pub all-Launches :
    (mode : Mode) (n p : ℕ)
    → opened mode n ≡ p
    → 1 ≤ p
    → Launches mode n p (taking mode n 0 0 p (listens ∷ connected ∷ []))
all-Launches mode n zero e h = absurd (omega arith)
all-Launches mode n (suc p) e h =
    taking-Launches mode n 0 0 p (listens ∷ connected ∷ []) (omega arith) (omega arith)
      (omega (arith, opened-all mode n))
