-- ===== src/Control/Tests.antt =====
-- Runs of the control connection.
use iperf_swift.Prelude.{
  ℕ, zero, suc, ◌≡◌, refl, false, none, some, List, [], ◌∷◌, ◌++◌, if◌then◌else◌, arith,
}
use iperf_swift.Errors.{Error}
use iperf_swift.Params.{receiver, bidirectional_mode}
use iperf_swift.Control.{
  Side, state_message, error_message, server_error, test_running, access_denied, iperf_done,
  received,
}
use iperf_swift.Control.Client.{
  iperf_handle_message_client, switch_client, after_message, is_positive_state,
}
use iperf_swift.Control.Server.{iperf_handle_message_server, switch_server, after_call}
use iperf_swift.Control.Failure.{server_failure-is_told, client_failure-leaves}
use iperf_swift.Control.Network.{
  Actor, run, start, client_reads, client_ends, server_accepts, server_reads, server_takes,
  client_calls, server_calls,
}
use iperf_swift.Control.Phases.{AllRounds, IsRound, concat}
use iperf_swift.Control.Ends.{IsCompleted, rounds-IsCompleted}

-- every actor in turn
abbrev round : List Actor
round = server_takes ∷ client_ends ∷ client_reads ∷ server_reads ∷ server_accepts ∷ []

round-IsRound : IsRound round
round-IsRound client_reads = refl
round-IsRound client_ends = refl
round-IsRound server_accepts = refl
round-IsRound server_reads = refl
round-IsRound server_takes = refl

abbrev times : ℕ → List (List Actor)
times zero = []
times (suc n) = round ∷ times n

times-AllRounds : (n : ℕ) → AllRounds (times n)
times-AllRounds zero = tt
times-AllRounds (suc n) = (round-IsRound, times-AllRounds n)

rounds-IsCompleted_example :
    IsCompleted bidirectional_mode 2 (run (concat (times 16)) (start bidirectional_mode 2))
rounds-IsCompleted_example =
    rounds-IsCompleted bidirectional_mode 2 (times 16) (omega arith) (times-AllRounds 16)
      (omega arith)

-- a side in the middle of a test
abbrev busy : Side
busy = record {
  state = test_running;
  mode = receiver;
  i_errno = none;
  done = false;
  sent = [];
  events = [];
}

unexpected : (iperf_handle_message_server server_calls (received test_running) busy).1 ≡ false
unfolding iperf_handle_message_server switch_server
unexpected = refl

server_failure-is_told_example :
    let o = iperf_handle_message_server server_calls (received test_running) busy in
    (e : Error) × (o.0.i_errno ≡ some e)
    × ((after_call server_calls o).sent
        ≡ (o.0.sent ++ state_message server_error ∷ []) ++ error_message e ∷ [])
server_failure-is_told_example =
    server_failure-is_told server_calls (received test_running) busy refl unexpected

denied : (iperf_handle_message_client client_calls (received access_denied) busy).1 ≡ false
unfolding iperf_handle_message_client switch_client
denied = refl

client_failure-leaves_example :
    let o = iperf_handle_message_client client_calls (received access_denied) busy in
    (e : Error) × (o.0.i_errno ≡ some e)
    × ((after_message client_calls o).i_errno ≡ some e)
    × ((after_message client_calls o).sent ≡ (
        if is_positive_state o.0.state
        then o.0.sent ++ state_message iperf_done ∷ []
        else o.0.sent))
client_failure-leaves_example =
    client_failure-leaves client_calls (received access_denied) busy refl denied
