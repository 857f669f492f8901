-- ===== src/Control/Server.antt =====
-- The server's side of the control connection (iperf_server_api.c). The results of the functions that
-- it calls are inputs: none where one goes through, otherwise the error that it sets.
use iperf_swift.Prelude.{
  ℕ, Bool, true, false, not, ◌&&◌, ◌+◌, ◌==◌, Option, none, some, [], ◌∷◌, ◌++◌, if◌then◌else◌,
}
use iperf_swift.Errors.{
  Error, ie_send_results, ie_message, ie_ctrl_close, ie_recv_message, ie_client_term,
}
use iperf_swift.Params.{is_receiver, Mode, sender, receiver, bidirectional_mode}
use iperf_swift.Control.{
  State, test_start, test_running, test_end, param_exchange, create_streams, client_terminate,
  exchange_results, display_results, iperf_done, access_denied, server_error, error_message,
  results_message, connected, test_initialized, timers_created, omit_timer_created,
  send_timers_created, listens, stream_accepted, stats_gathered, streams_closed, reported,
  results_sent, results_received, test_finished, Side, Outcome, ok, bad, ◌then_do◌, note, call,
  send, iperf_set_send_state, Reading, closed, broken, received,
}

-- `reads_cookie`: the socket options and the cookie of a new client; `gets_parameters`:
-- `get_parameters` and the authorization.
pub record ServerCalls : Type 0 where
  pub writes : Bool
  pub reads_cookie : Option Error
  pub gets_parameters : Option Error
  pub starts_listening : Option Error
  pub sets_affinity : Option Error
  pub accepts_stream : Option Error
  pub inits_test : Option Error
  pub creates_timers : Option Error
  pub creates_omit_timer : Option Error
  pub creates_send_timers : Option Error
  pub gets_results : Option Error

-- `iperf_accept` for a client when the server is free, until it waits for the parameters; with them;
-- and whole.
abbrev pub begin_accept : ServerCalls → Side → Outcome
begin_accept calls s = elim calls.reads_cookie [
  | some e ↦ bad e s
  | none ↦ iperf_set_send_state calls.writes param_exchange s
]

-- the server's branch of `iperf_exchange_parameters`, and the end of `iperf_accept`
abbrev pub end_accept : ServerCalls → Side → Outcome
end_accept calls s = elim calls.gets_parameters [
  | some e ↦ bad e s
  | none ↦ call listens calls.starts_listening s then_do λ s.
      iperf_set_send_state calls.writes create_streams s then_do λ s.
      call connected calls.sets_affinity s
]

unfoldable pub iperf_accept : ServerCalls → Side → Outcome
unfolding iperf_set_send_state
iperf_accept calls s = begin_accept calls s then_do end_accept calls

-- `iperf_accept` during a test: the newcomer is told so and closed, the test does not notice. What is
-- sent to the newcomer comes first.
unfoldable pub refuse : ServerCalls → Side → State × Outcome
refuse calls s = (access_denied, ok s)

-- what both ends of a test do with the streams
abbrev close_streams : Side → Side
close_streams s = note streams_closed s

-- TEST_END, until the server waits for the results of the client, and with them. The result of the
-- callbacks is not looked at.
abbrev pub begin_end : ServerCalls → Side → Outcome
begin_end calls s =
    let s = close_streams (note stats_gathered (record s { done = true })) in
    iperf_set_send_state calls.writes exchange_results (note (reported s.state) s)

abbrev pub finish_end : ServerCalls → Side → Outcome
finish_end calls s = call results_received calls.gets_results s then_do λ s.
    send calls.writes ie_send_results results_message s then_do λ s.
    iperf_set_send_state calls.writes display_results (note results_sent s) then_do λ s.
    ok (note test_finished s)

unfoldable pub end_server_test : ServerCalls → Side → Outcome
unfolding iperf_set_send_state
end_server_test calls s = begin_end calls s then_do finish_end calls

-- CLIENT_TERMINATE: the summary is printed in the state DISPLAY_RESULTS.
unfoldable pub client_terminated : Side → Outcome
client_terminated s =
    let s = note (reported display_results) (record s { i_errno = some ie_client_term }) in
    ok (record (close_streams s) { state = iperf_done })

unfoldable pub switch_server : ServerCalls → State → Side → Outcome
unfolding end_server_test client_terminated
switch_server calls test_start s = ok s
switch_server calls test_end s = end_server_test calls s
switch_server calls iperf_done s = ok s
switch_server calls client_terminate s = client_terminated s
switch_server calls _ s = bad ie_message s

unfoldable pub iperf_handle_message_server : ServerCalls → Reading → Side → Outcome
unfolding switch_server
iperf_handle_message_server calls closed s =
    ok (record s { i_errno = some ie_ctrl_close; state = iperf_done })
iperf_handle_message_server calls broken s = bad ie_recv_message s
iperf_handle_message_server calls (received state) s =
    switch_server calls state (record s { state = state })

-- `cleanup_server` on an open connection: the error goes to the client. The stopping of threads and
-- timers and the closing of the sockets are left out.
unfoldable pub cleanup_server : ServerCalls → Side → Side
unfolding iperf_set_send_state
cleanup_server calls s = elim s.i_errno [
  | none ↦ s
  | some e ↦
      let (t, went) = iperf_set_send_state calls.writes server_error s in
      if went then record t { sent = t.sent ++ error_message e ∷ []; i_errno = some e } else t
]

-- what `iperf_run_server` does with the result of a handler
unfoldable pub after_call : ServerCalls → Outcome → Side
unfolding cleanup_server
after_call calls (s, true) = s
after_call calls (s, false) = cleanup_server calls s

-- How many streams `iperf_run_server` waits for in each direction, from the mode of the test.
abbrev pub streams_to_send : Mode → ℕ → ℕ
streams_to_send sender n = n
streams_to_send receiver n = 0
streams_to_send bidirectional_mode n = n

abbrev pub streams_to_rec : Mode → ℕ → ℕ
streams_to_rec sender n = 0
streams_to_rec receiver n = n
streams_to_rec bidirectional_mode n = n

-- The streams accepted so far, those that the server receives on first.
pub record Accepted : Type 0 where
  pub rec_streams_accepted : ℕ
  pub send_streams_accepted : ℕ

-- one connection to the listener of the protocol
unfoldable pub accept_stream : ServerCalls → ℕ → Accepted → Side → Accepted × Outcome
accept_stream calls num_streams a s =
    if not (a.rec_streams_accepted == streams_to_rec s.mode num_streams)
    then (
      record a { rec_streams_accepted = a.rec_streams_accepted + 1 },
      call (stream_accepted false) calls.accepts_stream s,
    )
    else if not (a.send_streams_accepted == streams_to_send s.mode num_streams)
    then (
      record a { send_streams_accepted = a.send_streams_accepted + 1 },
      call (stream_accepted true) calls.accepts_stream s,
    )
    else (a, ok s)

abbrev pub all_accepted : ℕ → Accepted → Side → Bool
all_accepted num_streams a s =
    a.rec_streams_accepted == streams_to_rec s.mode num_streams
    && (a.send_streams_accepted == streams_to_send s.mode num_streams)

-- When all the streams are there. The second check of the rate, which repeats that of
-- `get_parameters` with the same numbers, and the creation of the threads are left out.
unfoldable pub start_server_test : ServerCalls → Side → Outcome
unfolding iperf_set_send_state
start_server_test calls s = iperf_set_send_state calls.writes test_start s then_do λ s.
    call test_initialized calls.inits_test s then_do λ s.
    call timers_created calls.creates_timers s then_do λ s.
    call omit_timer_created calls.creates_omit_timer s then_do λ s.
    (if is_receiver s.mode then ok s else call send_timers_created calls.creates_send_timers s)
    then_do iperf_set_send_state calls.writes test_running

-- a turn of the loop in the state CREATE_STREAMS with a new connection
unfoldable pub take_stream : ServerCalls → ℕ → Accepted → Side → Accepted × Outcome
unfolding accept_stream start_server_test
take_stream calls num_streams a s =
    let (a, outcome) = accept_stream calls num_streams a s in
    (
      a,
      outcome then_do λ s. if all_accepted num_streams a s then start_server_test calls s else ok s,
    )
