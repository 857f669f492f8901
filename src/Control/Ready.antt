-- ===== src/Control/Ready.antt =====
-- Which actors of a network are ready for a turn: whoever else is given one does nothing.
use iperf_swift.Prelude.{
  ℕ, zero, suc, Bool, true, false, ◌&&◌, ◌||◌, not, ◌≡◌, refl, if_both, List, [], ◌∷◌,
  if◌then◌else◌, arith,
}
use iperf_swift.Control.{Message, state_message, error_message, params_message, results_message}
use iperf_swift.Control.Network.{
  Network, Waiting, for_nothing, for_params, for_results, Actor, client_reads, client_ends,
  server_accepts, server_reads, server_takes, is_running, is_creating, is_free, take_pending, turn,
  client_reads_next, server_reads_next,
}

abbrev client_ready : Waiting → List Message → Bool
client_ready for_nothing (state_message state ∷ rest) = true
client_ready for_results (results_message ∷ rest) = true
client_ready _ _ = false

abbrev server_ready : Waiting → List Message → Bool
server_ready for_nothing (state_message state ∷ rest) = true
server_ready for_params (params_message ∷ rest) = true
server_ready for_results (results_message ∷ rest) = true
server_ready _ _ = false

abbrev some_pending : ℕ → Bool
some_pending zero = false
some_pending (suc p) = true

-- whether the turn of an actor does something
abbrev pub ready : Actor → Network → Bool
ready client_reads net = net.client_runs && client_ready net.client_waits net.to_client
ready client_ends net = net.client_runs && is_running net.client.state
ready server_accepts net = net.server_runs && (net.arrives && is_free net.server_waits)
ready server_reads net = net.server_runs && server_ready net.server_waits net.to_server
ready server_takes net =
    (net.server_runs && (is_creating net.server.state && is_free net.server_waits))
    && some_pending net.pending

client-idle :
    (waits : Waiting) (queue : List Message) (net : Network)
    → client_ready waits queue ≡ false
    → client_reads_next waits queue net ≡ net
client-idle for_nothing [] net h = refl
client-idle for_nothing (state_message v ∷ rest) net h = absurd (ground arith)
client-idle for_nothing (error_message v ∷ rest) net h = refl
client-idle for_nothing (params_message ∷ rest) net h = refl
client-idle for_nothing (results_message ∷ rest) net h = refl
client-idle for_params [] net h = refl
client-idle for_params (state_message v ∷ rest) net h = refl
client-idle for_params (error_message v ∷ rest) net h = refl
client-idle for_params (params_message ∷ rest) net h = refl
client-idle for_params (results_message ∷ rest) net h = refl
client-idle for_results [] net h = refl
client-idle for_results (state_message v ∷ rest) net h = refl
client-idle for_results (error_message v ∷ rest) net h = refl
client-idle for_results (params_message ∷ rest) net h = refl
client-idle for_results (results_message ∷ rest) net h = absurd (ground arith)

server-idle :
    (waits : Waiting) (queue : List Message) (net : Network)
    → server_ready waits queue ≡ false
    → server_reads_next waits queue net ≡ net
server-idle for_nothing [] net h = refl
server-idle for_nothing (state_message v ∷ rest) net h = absurd (ground arith)
server-idle for_nothing (error_message v ∷ rest) net h = refl
server-idle for_nothing (params_message ∷ rest) net h = refl
server-idle for_nothing (results_message ∷ rest) net h = refl
server-idle for_params [] net h = refl
server-idle for_params (state_message v ∷ rest) net h = refl
server-idle for_params (error_message v ∷ rest) net h = refl
server-idle for_params (params_message ∷ rest) net h = absurd (ground arith)
server-idle for_params (results_message ∷ rest) net h = refl
server-idle for_results [] net h = refl
server-idle for_results (state_message v ∷ rest) net h = refl
server-idle for_results (error_message v ∷ rest) net h = refl
server-idle for_results (params_message ∷ rest) net h = refl
server-idle for_results (results_message ∷ rest) net h = absurd (ground arith)

take-idle :
    (pending : ℕ) (b : Bool) (net : Network)
    → (b && some_pending pending) ≡ false
    → (if b then take_pending pending net else net) ≡ net
take-idle zero true net h = refl
take-idle zero false net h = refl
take-idle (suc p) true net h = absurd (ground arith)
take-idle (suc p) false net h = refl

pub turn-idle : (a : Actor) (net : Network) → ready a net ≡ false → turn a net ≡ net
unfolding turn
turn-idle client_reads net h =
    if_both (λ after. after ≡ net) net.client_runs _ net
      (λ on. client-idle net.client_waits net.to_client net (ground arith)) (λ off. refl)
turn-idle client_ends net h = rw (turn, h)
turn-idle server_accepts net h = rw (turn, h)
turn-idle server_reads net h =
    if_both (λ after. after ≡ net) net.server_runs _ net
      (λ on. server-idle net.server_waits net.to_server net (ground arith)) (λ off. refl)
turn-idle server_takes net h =
    take-idle net.pending
      (net.server_runs && (is_creating net.server.state && is_free net.server_waits)) net h

abbrev pub same_actor : Actor → Actor → Bool
same_actor client_reads client_reads = true
same_actor client_ends client_ends = true
same_actor server_accepts server_accepts = true
same_actor server_reads server_reads = true
same_actor server_takes server_takes = true
same_actor _ _ = false

abbrev idle_or_same : Actor → Network → Actor → Bool
idle_or_same a net b = same_actor a b || not (ready b net)

-- No other actor is ready.
abbrev pub IsOnly : Actor → Network → Type 0
IsOnly a net =
    (idle_or_same a net client_reads ≡ true)
    × (idle_or_same a net client_ends ≡ true)
    × (idle_or_same a net server_accepts ≡ true)
    × (idle_or_same a net server_reads ≡ true)
    × (idle_or_same a net server_takes ≡ true)

idle_of : (same is_ready : Bool) → (same || not is_ready) ≡ true → same ≡ false → is_ready ≡ false
idle_of same is_ready h other = ground arith

pub IsOnly-idle :
    (a : Actor) (net : Network) (b : Actor)
    → IsOnly a net
    → same_actor a b ≡ false
    → ready b net ≡ false
IsOnly-idle a net client_reads only other =
    idle_of (same_actor a client_reads) (ready client_reads net) only.0 other
IsOnly-idle a net client_ends only other =
    idle_of (same_actor a client_ends) (ready client_ends net) only.1 other
IsOnly-idle a net server_accepts only other =
    idle_of (same_actor a server_accepts) (ready server_accepts net) only.2 other
IsOnly-idle a net server_reads only other =
    idle_of (same_actor a server_reads) (ready server_reads net) only.3 other
IsOnly-idle a net server_takes only other =
    idle_of (same_actor a server_takes) (ready server_takes net) only.4 other

-- No actor is ready.
abbrev pub IsOver : Network → Type 0
IsOver net = (b : Actor) → ready b net ≡ false
