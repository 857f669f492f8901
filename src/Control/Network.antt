-- ===== src/Control/Network.antt =====
-- A client and a server on one control connection, where every call goes through: iperf_run_client
-- and iperf_run_server as the turns that they take. A turn reads one message, ends the test, or
-- accepts one connection; who is not ready for it does nothing. A side that waits for parameters or
-- results in the middle of a handler reads nothing else. The loops end where a handler fails and in the
-- state IPERF_DONE, that of the server also, after the next `select`, where `done` is set;
-- `cleanup_server` follows. Who has left its loop reads nothing more.
use iperf_swift.Prelude.{
  ℕ, zero, suc, ◌+◌, Bool, true, false, not, ◌&&◌, ◌||◌, none, List, [], ◌∷◌, ◌++◌, if◌then◌else◌,
}
use iperf_swift.Prelude.Int.{pos}
use iperf_swift.Errors.{ie_none}
use iperf_swift.Params.{Mode, sender, receiver, bidirectional_mode, is_bidirectional}
use iperf_swift.Control.{
  State, test_running, test_end, create_streams, exchange_results, iperf_start, iperf_done,
  other_state, Message, state_message, params_message, results_message, Side, Outcome, received,
}
use iperf_swift.Control.Client.{
  ClientCalls, begin_results, end_results, iperf_handle_message_client, after_message,
  end_client_test,
}
use iperf_swift.Control.Server.{
  ServerCalls, Accepted, begin_accept, end_accept, begin_end, finish_end,
  iperf_handle_message_server, after_call, take_stream,
}

abbrev pub client_calls : ClientCalls
client_calls = record {
  writes = true;
  creates_streams = λ direction. none;
  inits_test = none;
  creates_timers = none;
  creates_omit_timer = none;
  creates_send_timers = none;
  gets_results = none;
  error_reads = true;
  error_number = ie_none;
  errno_reads = true;
}

abbrev pub server_calls : ServerCalls
server_calls = record {
  writes = true;
  reads_cookie = none;
  gets_parameters = none;
  starts_listening = none;
  sets_affinity = none;
  accepts_stream = none;
  inits_test = none;
  creates_timers = none;
  creates_omit_timer = none;
  creates_send_timers = none;
  gets_results = none;
}

pub data Waiting : Type 0 where
  for_nothing : Waiting
  for_params : Waiting
  for_results : Waiting

abbrev pub is_free : Waiting → Bool
is_free for_nothing = true
is_free _ = false

-- The queues hold what was sent and not read, oldest first. `arrives`: the control connection waits to
-- be accepted. `client_runs` and `server_runs`: the side is in its loop. `pending`: the connections for
-- streams that wait to be accepted.
pub record Network : Type 0 where
  pub num_streams : ℕ
  pub client : Side
  pub server : Side
  pub client_waits : Waiting
  pub server_waits : Waiting
  pub to_client : List Message
  pub to_server : List Message
  pub arrives : Bool
  pub client_runs : Bool
  pub server_runs : Bool
  pub pending : ℕ
  pub accepted : Accepted

abbrev is_done : State → Bool
is_done iperf_done = true
is_done _ = false

-- what a side has sent goes to the other
abbrev pub client_goes : Waiting → List Message → Outcome → Network → Network
client_goes waits rest o net =
    let s = after_message client_calls o in
    record net {
      client_runs = o.1 && not (is_done s.state);
      client = record s { sent = [] };
      client_waits = waits;
      to_client = rest;
      to_server = net.to_server ++ s.sent;
    }

-- whether the server's loop goes on: in the middle of a handler, or where nothing ends it
abbrev stays : Waiting → Outcome → Bool
stays waits (s, went) = went && (not (is_free waits) || not (s.done || is_done s.state))

abbrev pub server_goes : Waiting → List Message → Outcome → Network → Network
server_goes waits rest o net =
    let on = stays waits o in
    let s = after_call server_calls (o.0, on) in
    record net {
      server_runs = on;
      server = record s { sent = [] };
      server_waits = waits;
      to_server = rest;
      to_client = net.to_client ++ s.sent;
    }

-- how many connections the client opens
abbrev pub opened : Mode → ℕ → ℕ
opened mode n = if is_bidirectional mode then n + n else n

abbrev pub client_reads_next : Waiting → List Message → Network → Network
client_reads_next for_nothing (state_message exchange_results ∷ rest) net =
    client_goes for_results rest
      (begin_results client_calls (record net.client { state = exchange_results })) net
client_reads_next for_nothing (state_message create_streams ∷ rest) net =
    record (client_goes for_nothing rest
      (iperf_handle_message_client client_calls (received create_streams) net.client) net) {
        pending = net.pending + opened net.client.mode net.num_streams;
      }
client_reads_next for_nothing (state_message state ∷ rest) net =
    client_goes for_nothing rest
      (iperf_handle_message_client client_calls (received state) net.client) net
client_reads_next for_results (results_message ∷ rest) net =
    client_goes for_nothing rest (end_results client_calls net.client) net
client_reads_next _ _ net = net

abbrev pub server_reads_next : Waiting → List Message → Network → Network
server_reads_next for_nothing (state_message test_end ∷ rest) net =
    server_goes for_results rest (begin_end server_calls (record net.server { state = test_end }))
      net
server_reads_next for_nothing (state_message state ∷ rest) net =
    server_goes for_nothing rest
      (iperf_handle_message_server server_calls (received state) net.server) net
server_reads_next for_params (params_message ∷ rest) net =
    server_goes for_nothing rest (end_accept server_calls net.server) net
server_reads_next for_results (results_message ∷ rest) net =
    server_goes for_nothing rest (finish_end server_calls net.server) net
server_reads_next _ _ net = net

pub data Actor : Type 0 where
  client_reads : Actor
  client_ends : Actor
  server_accepts : Actor
  server_reads : Actor
  server_takes : Actor

abbrev pub is_running : State → Bool
is_running test_running = true
is_running _ = false

abbrev pub is_creating : State → Bool
is_creating create_streams = true
is_creating _ = false

-- one connection for a stream
abbrev pub take_pending : ℕ → Network → Network
take_pending zero net = net
take_pending (suc p) net =
    let (accepted, o) = take_stream server_calls net.num_streams net.accepted net.server in
    record (server_goes for_nothing net.to_server o net) { pending = p; accepted = accepted }

unfoldable pub turn : Actor → Network → Network
unfolding iperf_handle_message_client iperf_handle_message_server after_message after_call
    end_client_test take_stream
turn client_reads net =
    if net.client_runs then client_reads_next net.client_waits net.to_client net else net
turn client_ends net =
    if net.client_runs && is_running net.client.state
    then client_goes for_nothing net.to_client (end_client_test client_calls net.client) net
    else net
turn server_accepts net =
    if net.server_runs && (net.arrives && is_free net.server_waits)
    then record (server_goes for_params net.to_server (begin_accept server_calls net.server) net) {
      arrives = false;
    }
    else net
turn server_reads net =
    if net.server_runs then server_reads_next net.server_waits net.to_server net else net
turn server_takes net =
    if net.server_runs && (is_creating net.server.state && is_free net.server_waits)
    then take_pending net.pending net
    else net

-- the turns of a schedule, first to last
unfoldable pub run : List Actor → Network → Network
unfolding turn
run [] net = net
run (a ∷ as_) net = run as_ (turn a net)

abbrev pub peer_mode : Mode → Mode
peer_mode sender = receiver
peer_mode receiver = sender
peer_mode bidirectional_mode = bidirectional_mode

abbrev fresh_side : State → Mode → Side
fresh_side state mode = record {
  state = state;
  mode = mode;
  i_errno = none;
  done = false;
  sent = [];
  events = [];
}

-- A client that has connected, with its mode and its number of streams. The server's mode stands for
-- what the parameters set.
abbrev pub start : Mode → ℕ → Network
start mode n = record {
  num_streams = n;
  client = fresh_side (other_state (pos 0)) mode;
  server = fresh_side iperf_start (peer_mode mode);
  client_waits = for_nothing;
  server_waits = for_nothing;
  to_client = [];
  to_server = [];
  arrives = true;
  client_runs = true;
  server_runs = true;
  pending = 0;
  accepted = record { rec_streams_accepted = 0; send_streams_accepted = 0 };
}
