-- ===== src/Params/Safe.antt =====
-- The invariant of the bounded numbers of a test: whatever object a client sends, they stay in range.
use iperf_swift.Prelude.{
  if_both, codes, ℕ, Bool, true, false, ◌≡◌, ◌≤◌, refl, Option, none, some, List, [], ◌∷◌,
  if◌then◌else◌, arith,
}
use iperf_swift.Prelude.Int.{ℤ, pos, negsuc}
use iperf_swift.Errors.{Error, ie_udp_file_transfer}
use iperf_swift.Params.{
  IperfTest, Features, Protocol, udp, tcp, sctp, set_protocol, finds_protocol,
  iperf_set_test_bidirectional, check_sender_has_retransmits,
}
use iperf_swift.Params.Limits.{BlockFits, get_parameters-IsWithinLimits}
use iperf_swift.Params.Receive.{
  Lookup, Run, Step, reset, number, number_flag, flag, text, fail, on_test, guard, take_step,
  take_steps, get_number, has_flag, get_string, chosen, choose, read_udp, read_protocol, test_steps,
  gso_steps, rate_steps, text_steps, derive_gso, note_sender, check_limits, check_test, read_test,
  get_parameters, adjust_gso, max_tcp_buffer,
}

-- -1, which stands for no affinity, or a number of a processor
abbrev IsAffinity : ℤ → Type 0
IsAffinity (pos n) = n ≤ 1024
IsAffinity (negsuc n) = n ≡ 0

-- The nine numbers that have bounds of their own, from iperf.h or written in the code, are within them.
abbrev pub IsSane : IperfTest → Type 0
IsSane t =
    (t.omit ≤ 600)
    × IsAffinity t.server_affinity
    × (t.duration ≤ 86400)
    × (1 ≤ t.num_streams)
    × (t.num_streams ≤ 128)
    × (t.settings.mss ≤ 32767)
    × (t.settings.socket_bufsize ≤ max_tcp_buffer)
    × (t.settings.burst ≤ 1000)
    × (t.settings.tos ≤ 255)
    × (t.settings.gro ≤ 1)

-- the step keeps it, whatever number its guard lets through
abbrev Keeps : Step → Type 0
Keeps (reset f) = (t : IperfTest) → IsSane t → IsSane (f t)
Keeps (number name accept e set) =
    (v : ℤ) (n : ℕ) (t : IperfTest) → accept v ≡ some n → IsSane t → IsSane (set n t)
Keeps (number_flag name set) = (v : ℤ) (t : IperfTest) → IsSane t → IsSane (set v t)
Keeps (flag name set) = (t : IperfTest) → IsSane t → IsSane (set t)
Keeps (text name set) = (s : List ℕ) (t : IperfTest) → IsSane t → IsSane (set s t)

abbrev KeepsAll : List Step → Type 0
KeepsAll [] = Unit {0}
KeepsAll (step ∷ steps) = Keeps step × KeepsAll steps

take_step-IsSane :
    (j : Lookup) (step : Step) (run : Run)
    → Keeps step
    → IsSane run.test
    → IsSane (take_step j step run).test
unfolding take_step
take_step-IsSane j (reset f) run keeps s = keeps run.test s
take_step-IsSane j (number name accept e set) run keeps s = given (get_number j name)
  where
    accepted :
        (v : ℤ) (r : Option ℕ)
        → accept v ≡ r
        → (let after : Run = elim r [ none ↦ fail e run | some n ↦ on_test (set n) run ] in
            IsSane after.test)
    accepted v none h = s
    accepted v (some n) h = keeps v n run.test h s

    given :
        (r : Option ℤ)
        → (let after : Run = elim r [ none ↦ run | some v ↦ guard accept e set v run ] in
            IsSane after.test)
    given none = s
    given (some v) = accepted v (accept v) refl
take_step-IsSane j (number_flag name set) run keeps s = given (get_number j name)
  where
    given :
        (r : Option ℤ)
        → (let after : Run = elim r [ none ↦ run | some v ↦ on_test (set v) run ] in
            IsSane after.test)
    given none = s
    given (some v) = keeps v run.test s
take_step-IsSane j (flag name set) run keeps s = given (has_flag j name)
  where
    given : (b : Bool) → IsSane (if b then on_test set run else run).test
    given true = keeps run.test s
    given false = s
take_step-IsSane j (text name set) run keeps s = given (get_string j name)
  where
    given :
        (r : Option (List ℕ))
        → (let after : Run = elim r [ none ↦ run | some v ↦ on_test (set v) run ] in
            IsSane after.test)
    given none = s
    given (some v) = keeps v run.test s

take_steps-IsSane :
    (j : Lookup) (steps : List Step) (run : Run)
    → KeepsAll steps
    → IsSane run.test
    → IsSane (take_steps j steps run).test
unfolding take_steps
take_steps-IsSane j [] run keeps s = s
take_steps-IsSane j (step ∷ steps) run keeps s =
    take_steps-IsSane j steps (take_step j step run) keeps.1 (take_step-IsSane j step run keeps.0 s)

-- What the functions called on a flag set is not looked at.
test_steps-KeepsAll : (sys : Features) → KeepsAll (test_steps sys)
unfolding iperf_set_test_bidirectional
test_steps-KeepsAll sys = (
  λ v n t h s. ground arith,
  (
    λ v n t h s. ground arith,
    (
      λ v n t h s. ground arith,
      (
        λ t s. ground arith,
        (
          λ v n t h s. ground arith,
          (
            λ t s. ground arith,
            (
              λ v n t h s. ground arith,
              (
                λ v n t h s. ground arith,
                (
                  λ t s. s,
                  (
                    λ v n t h s. ground arith,
                    (λ t s. s, (λ t s. s, (λ v n t h s. ground arith, (λ v n t h s. s, tt)))),
                  ),
                ),
              ),
            ),
          ),
        ),
      ),
    ),
  ),
)

gso_steps-KeepsAll : KeepsAll gso_steps
gso_steps-KeepsAll = (λ v n t h s. s, (λ v n t h s. s, (λ v n t h s. s, tt)))

rate_steps-KeepsAll : KeepsAll rate_steps
rate_steps-KeepsAll = (
  λ v n t h s. ground arith,
  (
    λ v n t h s. s,
    (
      λ v n t h s. ground arith,
      (
        λ v n t h s. ground arith,
        (λ v n t h s. s, (λ v n t h s. ground arith, (λ v n t h s. ground arith, tt))),
      ),
    ),
  ),
)

text_steps-KeepsAll : KeepsAll text_steps
text_steps-KeepsAll = (
  λ v t s. s,
  (
    λ v t s. s,
    (
      λ v t s. s,
      (
        λ v t s. s,
        (
          λ v t s. s,
          (λ v t s. s, (λ v t s. s, (λ v t s. s, (λ v t s. s, (λ v t s. s, (λ v t s. s, tt)))))),
        ),
      ),
    ),
  ),
)

-- The invariant on a run and on what a test chooses of two runs.
abbrev IsSaneRun : Run → Type 0
IsSaneRun run = IsSane run.test

either-IsSane :
    (b : Bool) (yes_run no_run : Run)
    → IsSaneRun yes_run
    → IsSaneRun no_run
    → IsSaneRun (if b then yes_run else no_run)
either-IsSane true yes_run no_run y n = y
either-IsSane false yes_run no_run y n = n

chosen-IsSane :
    (t : IperfTest) (e : Option Error) (run : Run) → IsSane t → IsSaneRun (chosen t e run)
chosen-IsSane t none run s = s
chosen-IsSane t (some e) run s = s

set_protocol-IsSane :
    (sys : Features) (prot_id : Protocol) (t : IperfTest)
    → IsSane t
    → IsSane (set_protocol sys prot_id t).0
unfolding set_protocol check_sender_has_retransmits
set_protocol-IsSane sys prot_id t s =
    if_both (λ (r : IperfTest × Option Error). IsSane r.0) (finds_protocol prot_id t.protocols) _ _
      (λ found. s) (λ other. s)

choose-IsSane :
    (sys : Features) (prot_id : Protocol) (run : Run)
    → IsSaneRun run
    → IsSaneRun (choose sys prot_id run)
choose-IsSane sys prot_id run s =
    chosen-IsSane (set_protocol sys prot_id run.test).0 (set_protocol sys prot_id run.test).1 run
      (set_protocol-IsSane sys prot_id run.test s)

read_udp-IsSane : (sys : Features) (run : Run) → IsSaneRun run → IsSaneRun (read_udp sys run)
unfolding read_udp
read_udp-IsSane sys run s = given run.test.diskfile_name
  where
    given :
        (r : Option (List ℕ))
        → IsSaneRun
            (elim r [ some name ↦ fail ie_udp_file_transfer run | none ↦ choose sys udp run ])
    given none = choose-IsSane sys udp run s
    given (some name) = s

read_protocol-IsSane :
    (sys : Features) (j : Lookup) (run : Run) → IsSaneRun run → IsSaneRun (read_protocol sys j run)
unfolding read_protocol
read_protocol-IsSane sys j run s =
    let for_tcp = if has_flag j (codes "tcp") then choose sys tcp run else run in
    let sane_tcp =
      either-IsSane (has_flag j (codes "tcp")) (choose sys tcp run) run
        (choose-IsSane sys tcp run s) s in
    let for_udp = if has_flag j (codes "udp") then read_udp sys for_tcp else for_tcp in
    let sane_udp =
      either-IsSane (has_flag j (codes "udp")) (read_udp sys for_tcp) for_tcp
        (read_udp-IsSane sys for_tcp sane_tcp) sane_tcp in
    either-IsSane (has_flag j (codes "sctp")) (choose sys sctp for_udp) for_udp
      (choose-IsSane sys sctp for_udp sane_udp) sane_udp

derive_gso-IsSane : (t : IperfTest) → IsSane t → IsSane (derive_gso t)
unfolding derive_gso
derive_gso-IsSane t s = ground arith

adjust_gso-IsSane : (t : IperfTest) → IsSane t → IsSane (adjust_gso t)
adjust_gso-IsSane t s = ground arith

check_limits-IsSane :
    (sys : Features) (run : Run) → IsSaneRun run → IsSaneRun (check_limits sys run)
unfolding check_limits
check_limits-IsSane sys run s = adjust_gso-IsSane run.test s

check_test-IsSane : (sys : Features) (run : Run) → IsSaneRun run → IsSaneRun (check_test sys run)
unfolding check_test
check_test-IsSane sys run s = search (either-IsSane, check_limits-IsSane, s)

numbers-IsSane :
    (sys : Features) (j : Option Lookup) (t : IperfTest)
    → IsSane t
    → IsSane (get_parameters sys j t).test
unfolding get_parameters read_test note_sender
numbers-IsSane sys none t s = s
numbers-IsSane sys (some j) t s =
    let started : Run = record { test = t; i_errno = none; failed = false } in
    check_test-IsSane sys (read_test sys j started) (
      take_steps-IsSane j text_steps
        (take_steps j rate_steps (
          on_test derive_gso
            (take_steps j gso_steps (take_steps j (test_steps sys) (read_protocol sys j started)))))
        text_steps-KeepsAll
        (take_steps-IsSane j rate_steps
          (on_test derive_gso
            (take_steps j gso_steps (take_steps j (test_steps sys) (read_protocol sys j started))))
          rate_steps-KeepsAll
          (derive_gso-IsSane
            (take_steps j gso_steps
              (take_steps j (test_steps sys) (read_protocol sys j started))).test
            (take_steps-IsSane j gso_steps
              (take_steps j (test_steps sys) (read_protocol sys j started)) gso_steps-KeepsAll
              (take_steps-IsSane j (test_steps sys) (read_protocol sys j started)
                (test_steps-KeepsAll sys) (read_protocol-IsSane sys j started s))))))

-- Whatever object a client sends, or none, and whether it is refused or not: a test in which the time
-- and the time to omit, the processor, the number of streams, the segment size, the window, the burst,
-- the type of service and the switch for receive offloading are within their bounds keeps them there.
-- Where the object is not refused, the block size is within the bounds of its protocol too. The sizes
-- for offloading and the pacing timer have no bounds in the code.
pub get_parameters-IsSane :
    (sys : Features) (j : Option Lookup) (t : IperfTest)
    → IsSane t
    → let run = get_parameters sys j t in
      IsSane run.test × (run.failed ≡ false → BlockFits run.test.protocol run.test.settings.blksize)
get_parameters-IsSane sys j t s =
    (numbers-IsSane sys j t s, λ accepted. (get_parameters-IsWithinLimits sys j t accepted).0)
