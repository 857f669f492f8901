-- ===== src/Net/Ends.antt =====
-- The read and write loops of net.c end: a call makes at most one system call for each byte.
use iperf_swift.Prelude.{
  ℕ, zero, suc, ◌-◌, ◌≤◌, ◌<◌, ◌≡◌, ◌≢◌, refl, inl, inr, min, Bool, Option, none, List, [], ◌∷◌,
  ◌++◌, ◌==◌, length, take, drop, arith, Bool-cases, length-drop,
}
use iperf_swift.Time.{Time}
use iperf_swift.Net.{
  Receives, arrives, interrupted, recv_broken, Received, Round, received_count, advance,
  nrecv_no_select_loop, nrecv_no_select, nrecv_loop, nrecv_wait, nrecv, next_timeout, Selects,
  readable, timed_out, select_broken, Writes, takes, write_again, no_buffers, write_broken,
  nwrite_loop, nwrite,
}

nrecv_no_select_loop_ends :
    (msg_trunc : Bool) (nleft : ℕ) (got : List ℕ) (calls : List Receives)
    → nleft ≤ length calls
    → nrecv_no_select_loop msg_trunc nleft got calls ≢ none
unfolding nrecv_no_select_loop
nrecv_no_select_loop_ends t zero got calls h = ground arith
nrecv_no_select_loop_ends t (suc n) got [] h = absurd (omega arith)
nrecv_no_select_loop_ends t (suc n) got (interrupted ∷ calls) h = ground arith
nrecv_no_select_loop_ends t (suc n) got (recv_broken ∷ calls) h = ground arith
nrecv_no_select_loop_ends t (suc n) got (arrives bytes ∷ calls) h =
    let r = received_count t (suc n) bytes in
    let step = advance t (suc n) r in
    elim (Bool-cases (r == 0)) [
      | inl eof ↦ rw eof (ground arith)
      | inr more ↦
          rw more (
            nrecv_no_select_loop_ends t (suc n - step) (got ++ take step bytes) calls
              (ground arith))
    ]

-- `Nrecv_no_select` for `count` bytes returns after at most `count` reads.
pub nrecv_no_select_ends :
    (msg_trunc : Bool) (count : ℕ) (calls : List Receives)
    → count ≤ length calls
    → nrecv_no_select msg_trunc count calls ≢ none
unfolding nrecv_no_select
nrecv_no_select_ends t count calls h = nrecv_no_select_loop_ends t count [] calls h

nrecv_wait_ends :
    (got : List ℕ) (ftimeout : Time) (round : Round) (rest : Option Received)
    → rest ≢ none
    → nrecv_wait got ftimeout round rest ≢ none
unfolding nrecv_wait
nrecv_wait_ends got ftimeout round rest h = ground arith

-- One round, with the claim for the rounds behind it.
round_ends :
    (call : Receives) (msg_trunc : Bool) (nleft : ℕ) (got : List ℕ) (ftimeout : Time)
    (round : Round) (rounds : List Round)
    → round.call ≡ call
    → ((k : ℕ) (got' : List ℕ) (ft : Time)
        → 1 ≤ k
        → k < nleft
        → nrecv_loop msg_trunc k got' ft rounds ≢ none)
    → nrecv_loop msg_trunc nleft got ftimeout (round ∷ rounds) ≢ none
unfolding nrecv_loop
round_ends interrupted t nleft got ft round rounds e ih = rw e (ground arith)
round_ends recv_broken t nleft got ft round rounds e ih = rw e (ground arith)
round_ends (arrives bytes) t nleft got ft round rounds e ih =
    let r = received_count t nleft bytes in
    let step = advance t nleft r in
    let got' = got ++ take step bytes in
    let ft' = next_timeout ft round.now in
    rw e (elim (Bool-cases (r == 0)) [
      | inl eof ↦ rw eof (ground arith)
      | inr more ↦ rw more (elim (Bool-cases (nleft - step == 0)) [
        | inl full ↦ rw full (ground arith)
        | inr open_ ↦ rw open_ (
            nrecv_wait_ends got' ft' round (nrecv_loop t (nleft - step) got' ft' rounds)
              (ih (nleft - step) got' ft' (ground arith) (ground arith)))
      ])
    ])

nrecv_loop_ends :
    (msg_trunc : Bool) (nleft : ℕ) (got : List ℕ) (ftimeout : Time) (rounds : List Round)
    → 1 ≤ nleft
    → nleft ≤ length rounds
    → nrecv_loop msg_trunc nleft got ftimeout rounds ≢ none
nrecv_loop_ends t nleft got ft [] one h = absurd (omega arith)
nrecv_loop_ends t nleft got ft (round ∷ rounds) one h =
    round_ends round.call t nleft got ft round rounds refl
      (λ k got' ft' some_left less. nrecv_loop_ends t k got' ft' rounds some_left (omega arith))

-- `Nrecv` for `count` bytes returns after at most `count` rounds, whatever arrives.
pub nrecv_ends :
    (msg_trunc : Bool) (count : ℕ) (select : Selects) (rounds : List Round)
    → count ≤ length rounds
    → nrecv msg_trunc count select rounds ≢ none
unfolding nrecv
nrecv_ends t count timed_out rounds h = ground arith
nrecv_ends t count select_broken rounds h = ground arith
nrecv_ends t count readable rounds h = elim (Bool-cases (count == 0)) [
  | inl none_asked ↦ rw none_asked (ground arith)
  | inr more ↦
      rw more (nrecv_loop_ends t count [] (record { secs = 0; usecs = 0 }) rounds (ground arith) h)
]

nwrite_loop_ends :
    (count : ℕ) (buf sent : List ℕ) (calls : List Writes)
    → length buf ≤ length calls
    → nwrite_loop count buf sent calls ≢ none
unfolding nwrite_loop
nwrite_loop_ends count [] sent calls h = ground arith
nwrite_loop_ends count (b ∷ buf) sent [] h = absurd (omega arith)
nwrite_loop_ends count (b ∷ buf) sent (write_again ∷ calls) h = ground arith
nwrite_loop_ends count (b ∷ buf) sent (no_buffers ∷ calls) h = ground arith
nwrite_loop_ends count (b ∷ buf) sent (write_broken ∷ calls) h = ground arith
nwrite_loop_ends count (b ∷ buf) sent (takes n ∷ calls) h =
    let r = min n (length (b ∷ buf)) in
    elim (Bool-cases (r == 0)) [
      | inl closed ↦ rw closed (ground arith)
      | inr more ↦ rw more (
          nwrite_loop_ends count (drop r (b ∷ buf)) (sent ++ take r (b ∷ buf)) calls
            (ground (arith, length-drop r (b ∷ buf))))
    ]

-- `Nwrite` returns after at most one write for each byte of the buffer.
pub nwrite_ends :
    (buf : List ℕ) (calls : List Writes) → length buf ≤ length calls → nwrite buf calls ≢ none
unfolding nwrite
nwrite_ends buf calls h = nwrite_loop_ends (length buf) buf [] calls h
