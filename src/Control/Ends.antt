-- ===== src/Control/Ends.antt =====
-- The run of a test over the control connection: whatever the order of the turns, it ends, on both
-- sides, with the results exchanged.
use iperf_swift.Prelude.{
  ℕ, zero, suc, ◌+◌, ◌≤◌, true, false, ◌≡◌, refl, sym, ap, subst, ◌∙◌, none, List, [], ◌∷◌, ◌++◌,
  length, length-append, arith,
}
use iperf_swift.Params.{Mode, sender, receiver, bidirectional_mode}
use iperf_swift.Control.{
  streams_created, test_end, test_initialized, timers_created, omit_timer_created,
  send_timers_created, stats_gathered, Event, state_message, connected, iperf_done, display_results,
  results_sent, results_received, test_finished, streams_closed, reported,
}
use iperf_swift.Control.Server.{streams_to_rec, streams_to_send, start_server_test}
use iperf_swift.Control.Network.{Network, Actor, turn, run, start, opened, peer_mode}
use iperf_swift.Control.Phases.{
  IsForced, IsForced-append, run-append, run-rest, rest_of, rest_of-rounds, AllRounds, concat,
}
use iperf_swift.Control.Ready.{IsOver}
use iperf_swift.Control.Script.{
  before, after, takes, launched, before-IsForced, after-IsForced, after-IsOver, before-taking,
}
use iperf_swift.Control.Streams.{Launches, opened-IsPositive, all-Launches}

-- the whole test
abbrev pub script : Mode → ℕ → List Actor
script mode n = before ++ (takes (opened mode n) ++ after)

-- Both sides are done and have no error, all streams were accepted, the results went both ways, last
-- and in order, and nobody has a turn to take. The client has left its loop with IPERF_DONE; the
-- server has left its own in the state DISPLAY_RESULTS and has not read that.
abbrev pub IsCompleted : Mode → ℕ → Network → Type 0
IsCompleted mode n net =
    (net.client.state ≡ iperf_done)
    × (net.server.state ≡ display_results)
    × (net.server.done ≡ true)
    × (net.client_runs ≡ false)
    × (net.server_runs ≡ false)
    × (net.client.i_errno ≡ none)
    × (net.server.i_errno ≡ none)
    × (net.to_client ≡ [])
    × (net.to_server ≡ state_message iperf_done ∷ [])
    × (net.pending ≡ 0)
    × (net.accepted.rec_streams_accepted ≡ streams_to_rec (peer_mode mode) n)
    × (net.accepted.send_streams_accepted ≡ streams_to_send (peer_mode mode) n)
    × ((es : List Event) × (net.client.events
          ≡ es
            ++ results_sent
              ∷ results_received
              ∷ test_finished
              ∷ streams_closed
              ∷ reported display_results
              ∷ []))
    × ((es : List Event) × (net.server.events
          ≡ ((es ++ results_received ∷ []) ++ results_sent ∷ []) ++ test_finished ∷ []))
    × IsOver net

after-IsCompleted :
    (mode : Mode) (n : ℕ) (es : List Event)
    → IsCompleted mode n (
        run after (
          launched mode n
            (streams_to_rec (peer_mode mode) n)
            (streams_to_send (peer_mode mode) n)
            es))
unfolding run turn start_server_test
after-IsCompleted sender n es = (
  refl,
  refl,
  refl,
  refl,
  refl,
  refl,
  refl,
  refl,
  refl,
  refl,
  refl,
  refl,
  (
    connected
        ∷ streams_created true
        ∷ test_initialized
        ∷ timers_created
        ∷ omit_timer_created
        ∷ send_timers_created
        ∷ stats_gathered
        ∷ [],
    refl,
  ),
  (
    ((((((es ++ test_initialized ∷ []) ++ timers_created ∷ []) ++ omit_timer_created ∷ [])
            ++ stats_gathered ∷ [])
          ++ streams_closed ∷ [])
        ++ reported test_end ∷ []),
    refl,
  ),
  after-IsOver sender n _ _ es,
)
after-IsCompleted receiver n es = (
  refl,
  refl,
  refl,
  refl,
  refl,
  refl,
  refl,
  refl,
  refl,
  refl,
  refl,
  refl,
  (
    connected
        ∷ streams_created false
        ∷ test_initialized
        ∷ timers_created
        ∷ omit_timer_created
        ∷ stats_gathered
        ∷ [],
    refl,
  ),
  (
    (((((((es ++ test_initialized ∷ []) ++ timers_created ∷ []) ++ omit_timer_created ∷ [])
              ++ send_timers_created ∷ [])
            ++ stats_gathered ∷ [])
          ++ streams_closed ∷ [])
        ++ reported test_end ∷ []),
    refl,
  ),
  after-IsOver receiver n _ _ es,
)
after-IsCompleted bidirectional_mode n es = (
  refl,
  refl,
  refl,
  refl,
  refl,
  refl,
  refl,
  refl,
  refl,
  refl,
  refl,
  refl,
  (
    connected
        ∷ streams_created true
        ∷ streams_created false
        ∷ test_initialized
        ∷ timers_created
        ∷ omit_timer_created
        ∷ send_timers_created
        ∷ stats_gathered
        ∷ [],
    refl,
  ),
  (
    (((((((es ++ test_initialized ∷ []) ++ timers_created ∷ []) ++ omit_timer_created ∷ [])
              ++ send_timers_created ∷ [])
            ++ stats_gathered ∷ [])
          ++ streams_closed ∷ [])
        ++ reported test_end ∷ []),
    refl,
  ),
  after-IsOver bidirectional_mode n _ _ es,
)

streams-Launches :
    (mode : Mode) (n : ℕ) → 1 ≤ n → Launches mode n (opened mode n) (run before (start mode n))
streams-Launches mode n h =
    subst (Launches mode n (opened mode n)) (sym (before-taking mode n))
      (all-Launches mode n (opened mode n) refl (opened-IsPositive mode n h))

script-IsForced : (mode : Mode) (n : ℕ) → 1 ≤ n → IsForced (script mode n) (start mode n)
script-IsForced mode n h =
    let (forced, (es, reaches)) = streams-Launches mode n h in
    IsForced-append before (takes (opened mode n) ++ after) (start mode n) (before-IsForced mode n)
      (IsForced-append (takes (opened mode n)) after (run before (start mode n)) forced
        (subst (IsForced after) (sym reaches) (after-IsForced mode n _ _ es)))

script-IsCompleted :
    (mode : Mode) (n : ℕ) → 1 ≤ n → IsCompleted mode n (run (script mode n) (start mode n))
script-IsCompleted mode n h =
    let (forced, (es, reaches)) = streams-Launches mode n h in
    subst (IsCompleted mode n)
      (sym (
        run-append before (takes (opened mode n) ++ after) (start mode n)
        ∙ (run-append (takes (opened mode n)) after (run before (start mode n))
            ∙ ap (run after) reaches)))
      (after-IsCompleted mode n es)

takes-length : (p : ℕ) → length (takes p) ≡ p
takes-length zero = refl
takes-length (suc p) = omega (arith, takes-length p)

script-length : (mode : Mode) (n : ℕ) → length (script mode n) ≡ opened mode n + 12
script-length mode n =
    omega (arith, length-append (takes (opened mode n)) after, takes-length (opened mode n))

-- Whatever turns the schedule gives to the two sides, in whatever order: what is left of the script of
-- the test leads from where they are to the completed test, so that the test cannot get stuck.
pub schedule-IsCompleted :
    (mode : Mode) (n : ℕ) (schedule : List Actor)
    → 1 ≤ n
    → IsCompleted mode n (run (rest_of schedule (script mode n)) (run schedule (start mode n)))
unfolding run
schedule-IsCompleted mode n schedule h =
    let done = script-IsCompleted mode n h in
    subst (IsCompleted mode n)
      (sym (run-rest schedule (script mode n) (start mode n) (script-IsForced mode n h) done.14))
      done

-- Every test of at least one stream ends, completed on both sides, under every schedule that goes on
-- for 12 rounds and one more for each connection, where a round gives every actor at least one turn,
-- in any order.
pub rounds-IsCompleted :
    (mode : Mode) (n : ℕ) (rounds : List (List Actor))
    → 1 ≤ n
    → AllRounds rounds
    → opened mode n + 12 ≤ length rounds
    → IsCompleted mode n (run (concat rounds) (start mode n))
unfolding run
rounds-IsCompleted mode n rounds h fair enough =
    subst (λ rest. IsCompleted mode n (run rest (run (concat rounds) (start mode n))))
      (rest_of-rounds rounds (script mode n) fair (omega (arith, script-length mode n)))
      (schedule-IsCompleted mode n (concat rounds) h)
