-- ===== src/Control/Failure.antt =====
-- Failures of the control connection: a handler that fails says why, and the other side hears of it.
use iperf_swift.Prelude.{
  Bool, true, false, ◌≡◌, refl, inl, inr, Bool-cases, Option, none, some, [], ◌∷◌, ◌++◌,
  if◌then◌else◌, arith,
}
use iperf_swift.Errors.{Error}
use iperf_swift.Control.{
  State, test_start, test_running, test_end, param_exchange, create_streams, server_terminate,
  client_terminate, exchange_results, display_results, iperf_start, iperf_done, access_denied,
  server_error, other_state, Message, state_message, error_message, Event, Side, Outcome, ok, bad,
  ◌then_do◌, note, call, send, iperf_set_send_state, Reading, closed, broken, received,
}
use iperf_swift.Control.Client.{
  ClientCalls, exchange_parameters, exchange_client_results, create_client_streams,
  start_client_test, iperf_client_end, read_server_error, switch_client,
  iperf_handle_message_client, after_message, is_positive_state,
}
use iperf_swift.Control.Server.{
  ServerCalls, end_server_test, client_terminated, switch_server, iperf_handle_message_server,
  cleanup_server, after_call,
}

-- A function that does not go through has set an error.
abbrev pub Explains : Outcome → Type 0
Explains o = o.1 ≡ false → (e : Error) × (o.0.i_errno ≡ some e)

ok-Explains : (s : Side) → Explains (ok s)
ok-Explains s h = absurd (ground arith)

bad-Explains : (e : Error) (s : Side) → Explains (bad e s)
bad-Explains e s h = (e, refl)

then_do-Explains :
    (o : Outcome) (f : Side → Outcome)
    → Explains o
    → ((s : Side) → Explains (f s))
    → Explains (o then_do f)
then_do-Explains (s, true) f first later = later s
then_do-Explains (s, false) f first later = first

call-Explains : (event : Event) (r : Option Error) (s : Side) → Explains (call event r s)
call-Explains event none s = ok-Explains (note event s)
call-Explains event (some e) s = bad-Explains e s

either-Explains :
    (b : Bool) (x y : Outcome) → Explains x → Explains y → Explains (if b then x else y)
either-Explains true x y p q = p
either-Explains false x y p q = q

send-Explains : (writes : Bool) (e : Error) (m : Message) (s : Side) → Explains (send writes e m s)
send-Explains writes e m s =
    either-Explains writes (ok (record s { sent = s.sent ++ m ∷ [] })) (bad e s)
      (ok-Explains (record s { sent = s.sent ++ m ∷ [] })) (bad-Explains e s)

ruleset explains =
    (ok-Explains, bad-Explains, then_do-Explains, call-Explains, either-Explains, send-Explains)

switch_client-Explains :
    (calls : ClientCalls) (state : State) (s : Side) → Explains (switch_client calls state s)
unfolding switch_client exchange_parameters create_client_streams start_client_test
    exchange_client_results read_server_error
switch_client-Explains calls param_exchange s = search explains
switch_client-Explains calls create_streams s = search explains
switch_client-Explains calls test_start s = search explains
switch_client-Explains calls test_running s = search explains
switch_client-Explains calls exchange_results s = search explains
switch_client-Explains calls display_results s = search explains
switch_client-Explains calls iperf_done s = search explains
switch_client-Explains calls server_terminate s = search explains
switch_client-Explains calls access_denied s = search explains
switch_client-Explains calls server_error s = search explains
switch_client-Explains calls test_end s = search explains
switch_client-Explains calls client_terminate s = search explains
switch_client-Explains calls iperf_start s = search explains
switch_client-Explains calls (other_state v) s = search explains

switch_server-Explains :
    (calls : ServerCalls) (state : State) (s : Side) → Explains (switch_server calls state s)
unfolding switch_server end_server_test client_terminated iperf_set_send_state
switch_server-Explains calls test_end s = search explains
switch_server-Explains calls state s = ground arith

client-Explains :
    (calls : ClientCalls) (reading : Reading) (s : Side)
    → Explains (iperf_handle_message_client calls reading s)
unfolding iperf_handle_message_client
client-Explains calls closed s = search explains
client-Explains calls broken s = search explains
client-Explains calls (received state) s =
    switch_client-Explains calls state (record s { state = state })

server-Explains :
    (calls : ServerCalls) (reading : Reading) (s : Side)
    → Explains (iperf_handle_message_server calls reading s)
unfolding iperf_handle_message_server
server-Explains calls closed s = search explains
server-Explains calls broken s = search explains
server-Explains calls (received state) s =
    switch_server-Explains calls state (record s { state = state })

-- what `cleanup_server` says
cleanup_server-tells :
    (calls : ServerCalls) (s : Side) (e : Error)
    → calls.writes ≡ true
    → s.i_errno ≡ some e
    → (cleanup_server calls s).sent
      ≡ (s.sent ++ state_message server_error ∷ []) ++ error_message e ∷ []
unfolding cleanup_server iperf_set_send_state
cleanup_server-tells calls s e writes is_e = rw (cleanup_server, is_e, writes)

-- what `after_call` keeps and says of a failure
after_call-tells :
    (calls : ServerCalls) (o : Outcome)
    → calls.writes ≡ true
    → o.1 ≡ false
    → Explains o
    → (e : Error) × (o.0.i_errno ≡ some e)
      × ((after_call calls o).sent
          ≡ (o.0.sent ++ state_message server_error ∷ []) ++ error_message e ∷ [])
unfolding after_call
after_call-tells calls (s, true) writes h explained = absurd (ground arith)
after_call-tells calls (s, false) writes h explained =
    let (e, is_e) = explained refl in (e, is_e, cleanup_server-tells calls s e writes is_e)

-- what `after_message` keeps and says of a failure
after_message-leaves :
    (calls : ClientCalls) (o : Outcome)
    → calls.writes ≡ true
    → o.1 ≡ false
    → Explains o
    → (e : Error) × (o.0.i_errno ≡ some e)
      × ((after_message calls o).i_errno ≡ some e)
      × ((after_message calls o).sent ≡ (
          if is_positive_state o.0.state
          then o.0.sent ++ state_message iperf_done ∷ []
          else o.0.sent))
unfolding after_message iperf_client_end iperf_set_send_state
after_message-leaves calls (s, true) writes h explained = absurd (ground arith)
after_message-leaves calls (s, false) writes h explained =
    let (e, is_e) = explained refl in
    elim (Bool-cases (is_positive_state s.state)) [
      | inl positive ↦ (e, is_e, ground arith, ground arith)
      | inr denied ↦ (e, is_e, ground arith, ground arith)
    ]

-- When the server's handler fails on a connection that takes what is written, it has set an error,
-- and the last messages to the client are SERVER_ERROR and the number of that error.
pub server_failure-is_told :
    (calls : ServerCalls) (reading : Reading) (s : Side)
    → calls.writes ≡ true
    → (iperf_handle_message_server calls reading s).1 ≡ false
    → let o = iperf_handle_message_server calls reading s in
      (e : Error) × (o.0.i_errno ≡ some e)
      × ((after_call calls o).sent
          ≡ (o.0.sent ++ state_message server_error ∷ []) ++ error_message e ∷ [])
server_failure-is_told calls reading s writes fails =
    after_call-tells calls (iperf_handle_message_server calls reading s) writes fails
      (server-Explains calls reading s)

-- A client that reads SERVER_ERROR and the two numbers behind it ends with the server's error and
-- sends nothing more.
pub client-hears :
    (calls : ClientCalls) (s : Side)
    → calls.error_reads ≡ true
    → calls.errno_reads ≡ true
    → let t = after_message calls (iperf_handle_message_client calls (received server_error) s) in
      (t.i_errno ≡ some calls.error_number) × (t.sent ≡ s.sent) × (t.state ≡ server_error)
unfolding iperf_handle_message_client switch_client read_server_error after_message iperf_client_end
client-hears calls s reads errno_reads = ground arith

-- When the client's handler fails, it has set an error, which the clean-up keeps; it takes leave
-- with IPERF_DONE, unless what it read was that the server denies access, has an error or another
-- number that is not positive.
pub client_failure-leaves :
    (calls : ClientCalls) (reading : Reading) (s : Side)
    → calls.writes ≡ true
    → (iperf_handle_message_client calls reading s).1 ≡ false
    → let o = iperf_handle_message_client calls reading s in
      (e : Error) × (o.0.i_errno ≡ some e)
      × ((after_message calls o).i_errno ≡ some e)
      × ((after_message calls o).sent ≡ (
          if is_positive_state o.0.state
          then o.0.sent ++ state_message iperf_done ∷ []
          else o.0.sent))
client_failure-leaves calls reading s writes fails =
    after_message-leaves calls (iperf_handle_message_client calls reading s) writes fails
      (client-Explains calls reading s)
