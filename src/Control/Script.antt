-- ===== src/Control/Script.antt =====
-- The order in which the two sides of a control connection become ready: the script of a test.
use iperf_swift.Prelude.{
  ℕ, zero, suc, ◌+◌, ◌==◌, true, false, ◌&&◌, ◌≡◌, refl, List, [], ◌∷◌, ◌++◌, arith,
}
use Prim.Native.Nat.add
use iperf_swift.Params.{Mode, sender, receiver, bidirectional_mode}
use iperf_swift.Control.{Event, listens, connected, stream_accepted}
use iperf_swift.Control.Server.{
  streams_to_rec, streams_to_send, start_server_test, take_stream, accept_stream,
}
use iperf_swift.Control.Network.{
  Network, for_nothing, Actor, client_reads, client_ends, server_accepts, server_reads,
  server_takes, turn, run, start, opened, peer_mode, server_goes, server_calls,
}
use iperf_swift.Control.Ready.{IsOnly, IsOver}
use iperf_swift.Control.Phases.{IsForced}

abbrev pub before : List Actor
before = server_accepts ∷ client_reads ∷ server_reads ∷ client_reads ∷ []

abbrev pub after : List Actor
after =
    client_reads ∷ client_reads ∷ client_ends ∷ server_reads ∷ client_reads ∷ server_reads
    ∷ client_reads ∷ client_reads ∷ []

abbrev pub takes : ℕ → List Actor
takes zero = []
takes (suc n) = server_takes ∷ takes n

-- The network while the server accepts streams: `r` and `s` are accepted, `p` wait, and `es` is what
-- the server has done.
abbrev pub taking : Mode → ℕ → ℕ → ℕ → ℕ → List Event → Network
taking mode n r s p es =
    let net = run before (start mode n) in
    record net {
      server = record net.server { events = es };
      pending = p;
      accepted = record { rec_streams_accepted = r; send_streams_accepted = s };
    }

-- and when it has them all
abbrev pub launched : Mode → ℕ → ℕ → ℕ → List Event → Network
launched mode n r s es =
    let net = taking mode n r s 0 es in
    server_goes for_nothing [] (start_server_test server_calls net.server) net

pub before-IsForced : (mode : Mode) (n : ℕ) → IsForced before (start mode n)
unfolding turn
before-IsForced sender n = (
  (refl, refl, refl, refl, refl),
  (
    (refl, refl, refl, refl, refl),
    ((refl, refl, refl, refl, refl), ((refl, refl, refl, refl, refl), tt)),
  ),
)
before-IsForced receiver n = (
  (refl, refl, refl, refl, refl),
  (
    (refl, refl, refl, refl, refl),
    ((refl, refl, refl, refl, refl), ((refl, refl, refl, refl, refl), tt)),
  ),
)
before-IsForced bidirectional_mode n = (
  (refl, refl, refl, refl, refl),
  (
    (refl, refl, refl, refl, refl),
    ((refl, refl, refl, refl, refl), ((refl, refl, refl, refl, refl), tt)),
  ),
)

pub after-IsForced :
    (mode : Mode) (n r s : ℕ) (es : List Event) → IsForced after (launched mode n r s es)
unfolding turn start_server_test run
after-IsForced sender n r s es = (
  (refl, refl, refl, refl, refl),
  (
    (refl, refl, refl, refl, refl),
    (
      (refl, refl, refl, refl, refl),
      (
        (refl, refl, refl, refl, refl),
        (
          (refl, refl, refl, refl, refl),
          (
            (refl, refl, refl, refl, refl),
            ((refl, refl, refl, refl, refl), ((refl, refl, refl, refl, refl), tt)),
          ),
        ),
      ),
    ),
  ),
)
after-IsForced receiver n r s es = (
  (refl, refl, refl, refl, refl),
  (
    (refl, refl, refl, refl, refl),
    (
      (refl, refl, refl, refl, refl),
      (
        (refl, refl, refl, refl, refl),
        (
          (refl, refl, refl, refl, refl),
          (
            (refl, refl, refl, refl, refl),
            ((refl, refl, refl, refl, refl), ((refl, refl, refl, refl, refl), tt)),
          ),
        ),
      ),
    ),
  ),
)
after-IsForced bidirectional_mode n r s es = (
  (refl, refl, refl, refl, refl),
  (
    (refl, refl, refl, refl, refl),
    (
      (refl, refl, refl, refl, refl),
      (
        (refl, refl, refl, refl, refl),
        (
          (refl, refl, refl, refl, refl),
          (
            (refl, refl, refl, refl, refl),
            ((refl, refl, refl, refl, refl), ((refl, refl, refl, refl, refl), tt)),
          ),
        ),
      ),
    ),
  ),
)

pub after-IsOver :
    (mode : Mode) (n r s : ℕ) (es : List Event) → IsOver (run after (launched mode n r s es))
unfolding turn start_server_test run
after-IsOver sender n r s es client_reads = refl
after-IsOver sender n r s es b = refl
after-IsOver receiver n r s es client_reads = refl
after-IsOver receiver n r s es b = refl
after-IsOver bidirectional_mode n r s es client_reads = refl
after-IsOver bidirectional_mode n r s es b = refl

pub before-taking :
    (mode : Mode) (n : ℕ)
    → run before (start mode n) ≡ taking mode n 0 0 (opened mode n) (listens ∷ connected ∷ [])
unfolding run turn
before-taking sender n = rw (add.zero n)
before-taking receiver n = rw (add.zero n)
before-taking bidirectional_mode n = rw (add.zero (n + n))

pub taking-IsOnly :
    (mode : Mode) (n r s p : ℕ) (es : List Event) → IsOnly server_takes (taking mode n r s p es)
unfolding run turn
taking-IsOnly sender n r s p es = (refl, refl, refl, refl, refl)
taking-IsOnly receiver n r s p es = (refl, refl, refl, refl, refl)
taking-IsOnly bidirectional_mode n r s p es = (refl, refl, refl, refl, refl)

pub take-rec :
    (mode : Mode) (n r s p : ℕ) (es : List Event)
    → (r == streams_to_rec (peer_mode mode) n) ≡ false
    → (r + 1 == streams_to_rec (peer_mode mode) n && s == streams_to_send (peer_mode mode) n)
      ≡ false
    → turn server_takes (taking mode n r s (suc p) es)
      ≡ taking mode n (r + 1) s p (es ++ stream_accepted false ∷ [])
unfolding run turn take_stream accept_stream
take-rec sender n r s p es short more = ground arith
take-rec receiver n r s p es short more = ground arith
take-rec bidirectional_mode n r s p es short more = ground arith

pub take-last_rec :
    (mode : Mode) (n r s p : ℕ) (es : List Event)
    → (r == streams_to_rec (peer_mode mode) n) ≡ false
    → (r + 1 == streams_to_rec (peer_mode mode) n && s == streams_to_send (peer_mode mode) n) ≡ true
    → p ≡ 0
    → turn server_takes (taking mode n r s (suc p) es)
      ≡ launched mode n (r + 1) s (es ++ stream_accepted false ∷ [])
unfolding run turn take_stream accept_stream
take-last_rec sender n r s p es short full e = ground arith
take-last_rec receiver n r s p es short full e = ground arith
take-last_rec bidirectional_mode n r s p es short full e = ground arith

pub take-send :
    (mode : Mode) (n r s p : ℕ) (es : List Event)
    → (r == streams_to_rec (peer_mode mode) n) ≡ true
    → (s == streams_to_send (peer_mode mode) n) ≡ false
    → (r == streams_to_rec (peer_mode mode) n && s + 1 == streams_to_send (peer_mode mode) n)
      ≡ false
    → turn server_takes (taking mode n r s (suc p) es)
      ≡ taking mode n r (s + 1) p (es ++ stream_accepted true ∷ [])
unfolding run turn take_stream accept_stream
take-send sender n r s p es full short more = ground arith
take-send receiver n r s p es full short more = ground arith
take-send bidirectional_mode n r s p es full short more = ground arith

pub take-last_send :
    (mode : Mode) (n r s p : ℕ) (es : List Event)
    → (r == streams_to_rec (peer_mode mode) n) ≡ true
    → (s == streams_to_send (peer_mode mode) n) ≡ false
    → (r == streams_to_rec (peer_mode mode) n && s + 1 == streams_to_send (peer_mode mode) n) ≡ true
    → p ≡ 0
    → turn server_takes (taking mode n r s (suc p) es)
      ≡ launched mode n r (s + 1) (es ++ stream_accepted true ∷ [])
unfolding run turn take_stream accept_stream
take-last_send sender n r s p es full short last e = ground arith
take-last_send receiver n r s p es full short last e = ground arith
take-last_send bidirectional_mode n r s p es full short last e = ground arith
