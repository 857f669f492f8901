-- ===== src/Control.antt =====
-- The control connection of a test: iperf_handle_message_client and iperf_client_end
-- (iperf_client_api.c), iperf_accept, iperf_handle_message_server, cleanup_server and the accepting of
-- streams in iperf_run_server (iperf_server_api.c). Here: the states of iperf_api.h, what a side of
-- the connection keeps, and iperf_set_send_state (iperf_api.c).
pub mod Client
pub mod Server
pub mod Failure
pub mod Network
pub mod Ready
pub mod Phases
pub mod Script
pub mod Streams
pub mod Ends
mod Tests
use iperf_swift.Prelude.{
  ℕ, Bool, true, false, Option, none, some, List, [], ◌∷◌, ◌++◌, if◌then◌else◌,
}
use iperf_swift.Prelude.Int.{ℤ}
use iperf_swift.Errors.{Error, ie_send_message}
use iperf_swift.Params.{Mode}

-- A `signed char` of iperf_api.h, or another.
pub data State : Type 0 where
  test_start : State
  test_running : State
  test_end : State
  param_exchange : State
  create_streams : State
  server_terminate : State
  client_terminate : State
  exchange_results : State
  display_results : State
  iperf_start : State
  iperf_done : State
  access_denied : State
  server_error : State
  other_state : ℤ → State

-- What goes over the control connection: states, the number of an error with that of the system, and
-- the framed JSON texts of the parameters and of the results.
pub data Message : Type 0 where
  state_message : State → Message
  error_message : Error → Message
  params_message : Message
  results_message : Message

-- What a side does beyond the connection.
pub data Event : Type 0 where
  connected : Event
  streams_created : Bool → Event
  test_initialized : Event
  timers_created : Event
  omit_timer_created : Event
  send_timers_created : Event
  listens : Event
  stream_accepted : Bool → Event
  stats_gathered : Event
  streams_closed : Event
  reported : State → Event
  results_sent : Event
  results_received : Event
  test_finished : Event

-- `sent` and `events` are in the order in which they happen.
pub record Side : Type 0 where
  pub state : State
  pub mode : Mode
  pub i_errno : Option Error
  pub done : Bool
  pub sent : List Message
  pub events : List Event

-- The side and whether the function went through (it returns -1 otherwise).
abbrev pub Outcome : Type 0
Outcome = Side × Bool

abbrev pub ok : Side → Outcome
ok s = (s, true)

abbrev pub bad : Error → Side → Outcome
bad e s = (record s { i_errno = some e }, false)

-- `if (f(test) < 0) return -1;`
infix 2 ◌then_do◌
abbrev pub ◌then_do◌ : Outcome → (Side → Outcome) → Outcome
(s, true) then_do f = f s
(s, false) then_do f = (s, false)

abbrev pub note : Event → Side → Side
note event s = record s { events = s.events ++ event ∷ [] }

-- a call that sets an error or goes through
abbrev pub call : Event → Option Error → Side → Outcome
call event none s = ok (note event s)
call event (some e) s = bad e s

abbrev pub send : Bool → Error → Message → Side → Outcome
send writes e message s =
    if writes then ok (record s { sent = s.sent ++ message ∷ [] }) else bad e s

-- `iperf_set_send_state` on an open connection, which `writes` or not
unfoldable pub iperf_set_send_state : Bool → State → Side → Outcome
iperf_set_send_state writes state s =
    send writes ie_send_message (state_message state) (record s { state = state })

-- what the reading of a state gives
pub data Reading : Type 0 where
  closed : Reading
  broken : Reading
  received : State → Reading
