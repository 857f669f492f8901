-- ===== src/Net/Transfer.antt =====
-- What the read and write loops of net.c transfer.
use iperf_swift.Prelude.{
  ℕ, zero, suc, ◌+◌, ◌-◌, ◌≤◌, ◌<◌, ◌^◌, ◌≡◌, ◌⊎◌, ◌≢◌, inl, inr, min, Bool, false, Option, none,
  some, List, [], ◌∷◌, ◌++◌, ap, sym, subst, ◌∙◌, refl, ◌==◌, length, take, drop, arith, Bool-cases,
  length-append, length-take, take-append-drop,
}
use iperf_swift.Prelude.Slices.{take-all, take-append_left, take-append_le, take-append_add}
use mathlib.Core.List.{append_assoc}
use iperf_swift.Prelude.Int.{ℤ, pos, is_negative, i32}
use iperf_swift.Time.{Time, time_compare}
use iperf_swift.Net.{
  Receives, arrives, interrupted, recv_broken, Received, failed, buffer, Round, received_count,
  advance, nrecv_no_select_loop, nrecv_loop, nrecv_wait, nrecv, next_timeout, Selects, readable,
  timed_out, select_broken, Writes, takes, write_again, no_buffers, write_broken, nwrite_loop,
  nwrite, net_softerror, net_harderror,
}

-- What a finished read leaves in the buffer has at most `n` bytes.
abbrev pub Within : ℕ → Option Received → Type 0
Within n none = Unit {0}
Within n (some (failed e)) = Unit {0}
Within n (some (buffer bytes)) = length bytes ≤ n

-- `Nrecv_no_select` never reads more than it is asked for, with or without `MSG_TRUNC`.
pub nrecv_no_select_loop-Within :
    (msg_trunc : Bool) (nleft n : ℕ) (got : List ℕ) (calls : List Receives)
    → length got + nleft ≤ n
    → Within n (nrecv_no_select_loop msg_trunc nleft got calls)
unfolding nrecv_no_select_loop
nrecv_no_select_loop-Within msg_trunc zero n got calls h = omega arith
nrecv_no_select_loop-Within msg_trunc (suc k) n got [] h = tt
nrecv_no_select_loop-Within msg_trunc (suc k) n got (interrupted ∷ calls) h = omega arith
nrecv_no_select_loop-Within msg_trunc (suc k) n got (recv_broken ∷ calls) h = tt
nrecv_no_select_loop-Within msg_trunc (suc k) n got (arrives bytes ∷ calls) h =
    let r = received_count msg_trunc (suc k) bytes in
    let step = advance msg_trunc (suc k) r in
    let next = got ++ take step bytes in
    let fits : length next + (suc k - step) ≤ n =
      ground (arith, length-append got (take step bytes), length-take step bytes) in
    elim (Bool-cases (r == 0)) [
      | inl eof ↦ rw eof (omega arith)
      | inr more ↦ rw more (nrecv_no_select_loop-Within msg_trunc (suc k - step) n next calls fits)
    ]

-- The bytes that one `Nwrite` sends are a prefix of the buffer, and it returns their number as an `int`
-- or an error code. The number is exact for a buffer below 2^31 bytes.
abbrev pub Sent : List ℕ → Option (ℤ × List ℕ) → Type 0
Sent buf none = Unit {0}
Sent buf (some (result, sent)) =
    (sent ≡ take (length sent) buf)
    × (length sent ≤ length buf)
    × ((result ≡ i32 (length sent)) ⊎ ((result ≡ net_softerror) ⊎ (result ≡ net_harderror)))
    × (length buf < 2 ^ 31 → is_negative result ≡ false → result ≡ pos (length sent))

i32-small : (n : ℕ) → n < 2 ^ 31 → i32 n ≡ pos n
i32-small n small = ground arith

-- the first bytes went out, and their number is returned, or an error code
counted-Sent :
    (sent buf : List ℕ) (n : ℕ) → n ≡ length sent → Sent (sent ++ buf) (some (i32 n, sent))
counted-Sent sent buf n e = (
  sym (take-append_left sent buf),
  omega (arith, length-append sent buf),
  inl (ap i32 e),
  λ small positive. ap i32 e ∙ i32-small (length sent) (omega (arith, length-append sent buf)),
)

soft-Sent : (sent buf : List ℕ) → Sent (sent ++ buf) (some (net_softerror, sent))
soft-Sent sent buf = (
  sym (take-append_left sent buf),
  omega (arith, length-append sent buf),
  inr (inl refl),
  λ small positive. absurd (ground arith),
)

hard-Sent : (sent buf : List ℕ) → Sent (sent ++ buf) (some (net_harderror, sent))
hard-Sent sent buf = (
  sym (take-append_left sent buf),
  omega (arith, length-append sent buf),
  inr (inr refl),
  λ small positive. absurd (ground arith),
)

nwrite_loop-Sent :
    (buf sent : List ℕ) (calls : List Writes)
    → Sent (sent ++ buf) (nwrite_loop (length (sent ++ buf)) buf sent calls)
unfolding nwrite_loop
nwrite_loop-Sent [] sent calls =
    counted-Sent sent [] (length (sent ++ [])) (omega (arith, length-append sent []))
nwrite_loop-Sent (b ∷ buf) sent [] = tt
nwrite_loop-Sent (b ∷ buf) sent (write_again ∷ calls) =
    elim (Bool-cases (length (sent ++ b ∷ buf) == length (b ∷ buf))) [
      | inl none_sent ↦ rw none_sent (soft-Sent sent (b ∷ buf))
      | inr some_sent ↦ rw some_sent (
          counted-Sent sent (b ∷ buf) (length (sent ++ b ∷ buf) - length (b ∷ buf))
            (omega (arith, length-append sent (b ∷ buf))))
    ]
nwrite_loop-Sent (b ∷ buf) sent (no_buffers ∷ calls) = soft-Sent sent (b ∷ buf)
nwrite_loop-Sent (b ∷ buf) sent (write_broken ∷ calls) = hard-Sent sent (b ∷ buf)
nwrite_loop-Sent (b ∷ buf) sent (takes n ∷ calls) =
    let r = min n (length (b ∷ buf)) in
    let whole : (sent ++ take r (b ∷ buf)) ++ drop r (b ∷ buf) ≡ sent ++ b ∷ buf =
      append_assoc sent (take r (b ∷ buf)) (drop r (b ∷ buf))
      ∙ ap (λ x. sent ++ x) (take-append-drop r (b ∷ buf)) in
    let rest =
      subst
        (λ x. Sent x (nwrite_loop (length x) (drop r (b ∷ buf)) (sent ++ take r (b ∷ buf)) calls))
        whole (nwrite_loop-Sent (drop r (b ∷ buf)) (sent ++ take r (b ∷ buf)) calls) in
    elim (Bool-cases (r == 0)) [
      | inl closed ↦ rw closed (soft-Sent sent (b ∷ buf))
      | inr more ↦ rw more rest
    ]

-- With any answers of the system, what `Nwrite` puts on the socket is a prefix of the buffer. It
-- returns the length of that prefix, as an `int`, or an error code; for a buffer below 2^31 bytes a
-- result that is not negative is that length.
pub nwrite-Sent : (buf : List ℕ) (calls : List Writes) → Sent buf (nwrite buf calls)
unfolding nwrite
nwrite-Sent buf calls = nwrite_loop-Sent buf [] calls

-- the bytes that arrive in a list of rounds, in order
abbrev pub arrivals : List Round → List ℕ
arrivals [] = []
arrivals (round ∷ rounds) =
    elim (round.call) [ arrives bytes ↦ bytes | interrupted ↦ [] | recv_broken ↦ [] ]
    ++ arrivals rounds

-- A finished read of a stream has a prefix of what arrives, of at most `n` bytes.
abbrev pub IsPrefixOf : ℕ → List ℕ → Option Received → Type 0
IsPrefixOf n stream none = Unit {0}
IsPrefixOf n stream (some (failed e)) = Unit {0}
IsPrefixOf n stream (some (buffer bytes)) =
    (length bytes ≤ n) × (bytes ≡ take (length bytes) stream)

prefix :
    (n : ℕ) (got more : List ℕ) → length got ≤ n → IsPrefixOf n (got ++ more) (some (buffer got))
prefix n got more h = (h, sym (take-append_left got more))

nrecv_wait-IsPrefixOf :
    (n : ℕ) (stream got : List ℕ) (ftimeout : Time) (round : Round) (rest : Option Received)
    → IsPrefixOf n stream (some (buffer got))
    → IsPrefixOf n stream rest
    → IsPrefixOf n stream (nrecv_wait got ftimeout round rest)
unfolding nrecv_wait
nrecv_wait-IsPrefixOf n stream got ftimeout round rest p q =
    elim (Bool-cases (is_negative (time_compare ftimeout round.now))) [
      | inl late ↦ rw late p
      | inr early ↦ rw early (wait round.select)
    ]
  where
    wait :
        (s : Selects)
        → IsPrefixOf n stream (elim s [
          | readable ↦ rest
          | timed_out ↦ some (buffer got)
          | select_broken ↦ some (failed net_harderror)
        ])
    wait readable = q
    wait timed_out = p
    wait select_broken = tt

-- One round, with the claim for the rounds behind it.
round-IsPrefixOf :
    (call : Receives) (nleft n : ℕ) (got : List ℕ) (ftimeout : Time) (round : Round)
    (rounds : List Round)
    → round.call ≡ call
    → length got + nleft ≤ n
    → ((k : ℕ) (got' : List ℕ) (ft : Time)
        → length got' + k ≤ n
        → IsPrefixOf n (got' ++ arrivals rounds) (nrecv_loop false k got' ft rounds))
    → IsPrefixOf n
        (got ++ arrivals (round ∷ rounds))
        (nrecv_loop false nleft got ftimeout (round ∷ rounds))
unfolding nrecv_loop
round-IsPrefixOf interrupted nleft n got ftimeout round rounds e h ih =
    rw e (prefix n got (arrivals rounds) (omega arith))
round-IsPrefixOf recv_broken nleft n got ftimeout round rounds e h ih = rw e tt
round-IsPrefixOf (arrives bytes) nleft n got ftimeout round rounds e h ih =
    let step = min nleft (length bytes) in
    let got' = got ++ take step bytes in
    let size : length got' ≡ length got + step =
      omega (arith, length-append got (take step bytes), length-take step bytes) in
    let ft = next_timeout ftimeout round.now in
    let filled : IsPrefixOf n (got ++ (bytes ++ arrivals rounds)) (some (buffer got')) = (
      omega (arith, size),
      sym (
          ap (λ x. take x (got ++ (bytes ++ arrivals rounds))) size
          ∙ take-append_add got (bytes ++ arrivals rounds) step
          ∙ ap (λ x. got ++ x) (take-append_le bytes (arrivals rounds) step (omega arith))),
    ) in
    let whole : nleft - step ≢ 0 → got' ++ arrivals rounds ≡ got ++ (bytes ++ arrivals rounds) =
      λ open_.
        ap (λ x. got ++ x ++ arrivals rounds) (take-all bytes step (omega arith))
        ∙ append_assoc got bytes (arrivals rounds) in
    rw e (elim (Bool-cases (step == 0)) [
      | inl eof ↦ rw eof (prefix n got (bytes ++ arrivals rounds) (omega arith))
      | inr more ↦ rw more (elim (Bool-cases (nleft - step == 0)) [
        | inl full ↦ rw full filled
        | inr open_ ↦ rw open_ (
            nrecv_wait-IsPrefixOf n (got ++ (bytes ++ arrivals rounds)) got' ft round
              (nrecv_loop false (nleft - step) got' ft rounds) filled
              (subst (λ x. IsPrefixOf n x (nrecv_loop false (nleft - step) got' ft rounds))
                (whole (ground arith)) (ih (nleft - step) got' ft (omega (arith, size)))))
      ])
    ])

nrecv_loop-IsPrefixOf :
    (nleft n : ℕ) (got : List ℕ) (ftimeout : Time) (rounds : List Round)
    → length got + nleft ≤ n
    → IsPrefixOf n (got ++ arrivals rounds) (nrecv_loop false nleft got ftimeout rounds)
nrecv_loop-IsPrefixOf nleft n got ftimeout [] h = unfold nrecv_loop in tt
nrecv_loop-IsPrefixOf nleft n got ftimeout (round ∷ rounds) h =
    round-IsPrefixOf round.call nleft n got ftimeout round rounds refl h
      (λ k got' ft small. nrecv_loop-IsPrefixOf k n got' ft rounds small)

-- Without `MSG_TRUNC`, a finished `Nrecv` has read at most `count` bytes, and they are the first of
-- those that arrived, in order: it loses, repeats and reorders none.
pub nrecv-IsPrefixOf :
    (count : ℕ) (select : Selects) (rounds : List Round)
    → IsPrefixOf count (arrivals rounds) (nrecv false count select rounds)
unfolding nrecv
nrecv-IsPrefixOf count readable rounds = elim (Bool-cases (count == 0)) [
  | inl none_asked ↦ rw none_asked (omega arith, refl)
  | inr more ↦
      rw more
        (nrecv_loop-IsPrefixOf count count [] (record { secs = 0; usecs = 0 }) rounds (omega arith))
]
nrecv-IsPrefixOf count timed_out rounds = (omega arith, refl)
nrecv-IsPrefixOf count select_broken rounds = tt
