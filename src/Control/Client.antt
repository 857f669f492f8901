-- ===== src/Control/Client.antt =====
-- The client's side of the control connection (iperf_client_api.c). The results of the functions that
-- the handler calls are inputs: none where one goes through, otherwise the error that it sets.
use iperf_swift.Prelude.{Bool, true, false, not, Option, if◌then◌else◌, ltb}
use iperf_swift.Prelude.Int.{pos, negsuc}
use iperf_swift.Errors.{
  Error, ie_send_params, ie_send_results, ie_message, ie_ctrl_close, ie_recv_message,
  ie_server_term, ie_access_denied, ie_ctrl_read,
}
use iperf_swift.Params.{is_receiver, is_bidirectional}
use iperf_swift.Control.{
  State, test_start, test_running, test_end, param_exchange, create_streams, server_terminate,
  exchange_results, display_results, iperf_done, access_denied, server_error, other_state,
  params_message, results_message, connected, streams_created, test_initialized, timers_created,
  omit_timer_created, send_timers_created, stats_gathered, streams_closed, reported, results_sent,
  results_received, test_finished, Side, Outcome, ok, bad, ◌then_do◌, note, call, send,
  iperf_set_send_state, Reading, closed, broken, received,
}

-- `writes`: the connection takes what is written. `gets_results`: `get_results`. `error_reads` and
-- `error_number`: whether the two numbers behind SERVER_ERROR can be read, and the first of them.
pub record ClientCalls : Type 0 where
  pub writes : Bool
  pub creates_streams : Bool → Option Error
  pub inits_test : Option Error
  pub creates_timers : Option Error
  pub creates_omit_timer : Option Error
  pub creates_send_timers : Option Error
  pub gets_results : Option Error
  pub error_reads : Bool
  pub error_number : Error
  pub errno_reads : Bool

-- The client's branch of `iperf_exchange_parameters`: `send_parameters` writes the frame.
unfoldable pub exchange_parameters : ClientCalls → Side → Outcome
exchange_parameters calls s = send calls.writes ie_send_params params_message s

-- The client's branch of `iperf_exchange_results`, until it waits for the results of the server, and
-- with them.
abbrev pub begin_results : ClientCalls → Side → Outcome
begin_results calls s =
    send calls.writes ie_send_results results_message s then_do λ s. ok (note results_sent s)

abbrev pub end_results : ClientCalls → Side → Outcome
end_results calls s = call results_received calls.gets_results s

unfoldable pub exchange_client_results : ClientCalls → Side → Outcome
exchange_client_results calls s = begin_results calls s then_do end_results calls

-- the streams of one direction, or of both
unfoldable pub create_client_streams : ClientCalls → Side → Outcome
create_client_streams calls s =
    if is_bidirectional s.mode
    then call (streams_created true) (calls.creates_streams true) s
      then_do call (streams_created false) (calls.creates_streams false)
    else call (streams_created (not (is_receiver s.mode)))
        (calls.creates_streams (not (is_receiver s.mode))) s

-- TEST_START
unfoldable pub start_client_test : ClientCalls → Side → Outcome
start_client_test calls s = call test_initialized calls.inits_test s then_do λ s.
    call timers_created calls.creates_timers s then_do λ s.
    call omit_timer_created calls.creates_omit_timer s then_do λ s.
    if is_receiver s.mode then ok s else call send_timers_created calls.creates_send_timers s

abbrev pub is_positive_state : State → Bool
is_positive_state access_denied = false
is_positive_state server_error = false
is_positive_state (other_state (pos n)) = ltb 0 n
is_positive_state (other_state (negsuc n)) = false
is_positive_state _ = true

-- The closing of the sockets at the end is left out.
unfoldable pub iperf_client_end : ClientCalls → Side → Outcome
unfolding iperf_set_send_state
iperf_client_end calls s =
    let s = note (reported s.state) (note streams_closed s) in
    if is_positive_state s.state then iperf_set_send_state calls.writes iperf_done s else ok s

-- the numbers behind SERVER_ERROR
unfoldable pub read_server_error : ClientCalls → Side → Outcome
read_server_error calls s =
    if not calls.error_reads
    then bad ie_ctrl_read s
    else bad (if calls.errno_reads then calls.error_number else ie_ctrl_read) s

-- The switch. The result of `iperf_client_end` is not looked at there.
unfoldable pub switch_client : ClientCalls → State → Side → Outcome
unfolding exchange_parameters create_client_streams start_client_test exchange_client_results
    iperf_client_end read_server_error
switch_client calls param_exchange s =
    exchange_parameters calls s then_do λ s. ok (note connected s)
switch_client calls create_streams s = create_client_streams calls s
switch_client calls test_start s = start_client_test calls s
switch_client calls test_running s = ok s
switch_client calls exchange_results s = exchange_client_results calls s
switch_client calls display_results s = ok (iperf_client_end calls (note test_finished s)).0
switch_client calls iperf_done s = ok s
switch_client calls server_terminate s = bad ie_server_term (note (reported display_results) s)
switch_client calls access_denied s = bad ie_access_denied s
switch_client calls server_error s = read_server_error calls s
switch_client calls _ s = bad ie_message s

unfoldable pub iperf_handle_message_client : ClientCalls → Reading → Side → Outcome
unfolding switch_client
iperf_handle_message_client calls closed s = bad ie_ctrl_close s
iperf_handle_message_client calls broken s = bad ie_recv_message s
iperf_handle_message_client calls (received state) s =
    switch_client calls state (record s { state = state })

-- What `iperf_run_client` does with the result: it goes on, or it cleans up and keeps the error.
unfoldable pub after_message : ClientCalls → Outcome → Side
unfolding iperf_client_end
after_message calls (s, true) = s
after_message calls (s, false) = (iperf_client_end calls s).0

-- `iperf_run_client` when the test is over: TEST_END, where its state is TEST_RUNNING.
unfoldable pub end_client_test : ClientCalls → Side → Outcome
unfolding iperf_set_send_state
end_client_test calls s =
    iperf_set_send_state calls.writes test_end (note stats_gathered (record s { done = true }))
