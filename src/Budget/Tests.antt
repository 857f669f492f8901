-- ===== src/Budget/Tests.antt =====
-- Collected output (iperf_output_budget.c) with a limit of a few bytes.
use iperf_swift.Prelude.{ℕ, ◌≡◌, refl, Bool, true, false, some, List, [], ◌∷◌, arith}
use iperf_swift.Prelude.Int.{pos}
use iperf_swift.Output.{complete, text, no_reason, ServerOutput}
use iperf_swift.Output.Read.{cleared}
use iperf_swift.Budget.{Budget, reset}
use iperf_swift.Budget.Json.{Json, node, no_child, child, Document, add_server_results}
use iperf_swift.Budget.Peer.{PeerStatus, int, decode_status, apply_peer_status}
use iperf_swift.Budget.Bounds.{IsBudgeted, Call, interval, results, collect_all}
use iperf_swift.Budget.Final.{collect_all-add_server_results}
use iperf_swift.Budget.Limits.{collect_all-IsBudgeted}
use iperf_swift.Budget.Collected.{Collects}
use iperf_swift.Budget.Printed.{print_all, printed, print_all-Collects}
use iperf_swift.Budget.Worse.{IsWorse, apply_peer_status-IsWorse}

abbrev empty : ServerOutput
empty = cleared

abbrev budget : Bool → Budget
budget json_output = record {
  limit = 8;
  json_output = json_output;
  output = empty;
  has_scratch = false;
  json_values = 0;
  json_intervals = 0;
  finalized = false;
}

abbrev leaf : Json
leaf = node no_child

-- a document that prints its intervals as they are
abbrev document : Document
document = record {
  reference = true;
  tree = node (child leaf no_child);
  printed = λ bytes. some bytes;
}

abbrev calls : List Call
calls =
    interval true (some leaf) (some (b'1' ∷ b'2' ∷ []))
    ∷ interval true (some leaf) (some (b'3' ∷ []))
    ∷ results true (some document) true
    ∷ []

collect_run :
    (collect_all calls (reset (budget true))).output.value
    ≡ some (b'[' ∷ b'1' ∷ b'2' ∷ b',' ∷ b'3' ∷ b']' ∷ [])
unfolding collect_all reset
collect_run = refl

collect_all-IsBudgeted_example :
    let b' = collect_all calls (reset (budget true)) in
    IsBudgeted b' × (b'.limit ≡ (budget true).limit)
collect_all-IsBudgeted_example = collect_all-IsBudgeted calls (budget true) (omega arith)

-- the last character is cut
abbrev texts : List (List ℕ × Bool)
texts = (65 ∷ 66 ∷ 67 ∷ 68 ∷ [], true) ∷ (65 ∷ 66 ∷ 67 ∷ 0xc3 ∷ 0xa4 ∷ [], true) ∷ []

print_run :
    (print_all true texts (reset (budget false))).output.value
    ≡ some (65 ∷ 66 ∷ 67 ∷ 68 ∷ 65 ∷ 66 ∷ 67 ∷ [])
unfolding print_all reset
print_run = refl

print_all-Collects_example :
    Collects 8 (printed texts) (print_all true texts (reset (budget false))).output
print_all-Collects_example =
    print_all-Collects true texts (budget false) (omega arith) (omega arith)

abbrev local : ServerOutput
local = record {
  value = some (65 ∷ []);
  observed_bytes = 1;
  state = complete;
  format = text;
  reason = no_reason;
  observed_bytes_complete = true;
}

-- a server that cut its text
abbrev peer : PeerStatus
peer = record {
  is_object = true;
  version = int (pos 1);
  state = int (pos 2);
  format = int (pos 1);
  reason = int (pos 1);
  bytes = some 900;
  names = some 0 ∷ some 1 ∷ some 2 ∷ some 3 ∷ some 4 ∷ [];
}

apply_peer_status-IsWorse_example :
    IsWorse (decode_status peer) local (apply_peer_status (some peer) local)
apply_peer_status-IsWorse_example = apply_peer_status-IsWorse peer local refl

collect_all-add_server_results_example :
    let b' = (add_server_results true (some document) true (reset (budget true))).0 in
    collect_all calls b' ≡ b'
collect_all-add_server_results_example =
    collect_all-add_server_results true (some document) true calls (reset (budget true))
