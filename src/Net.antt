-- ===== src/Net.antt =====
-- Sources/IperfCLib/net.c: the loops that read and write a whole buffer on a socket.
-- What the system answers is a list with one entry for each call of the loop, in order. A list that
-- ends stands for a call that does not return, and the loop's result is none.
pub mod Transfer
pub mod Ends
mod Tests
use iperf_swift.Prelude.{
  ℕ, zero, suc, ◌+◌, ◌-◌, ◌*◌, min, Bool, true, false, Option, none, some, List, [], ◌∷◌, ◌++◌,
  if◌then◌else◌, ltb, ◌==◌, length, take, drop,
}
use iperf_swift.Prelude.Int.{ℤ, negsuc, is_negative, i32}
use iperf_swift.Time.{Time, usecs_per_sec, time_add_usecs, time_compare}

-- -1 and -2
abbrev pub net_softerror : ℤ
net_softerror = negsuc 0

abbrev pub net_harderror : ℤ
net_harderror = negsuc 1

-- One `read` or `recv`: the bytes that are there (none of them: the peer has closed), an errno of
-- `EINTR`, `EAGAIN` or `EWOULDBLOCK`, or another errno.
pub data Receives : Type 0 where
  arrives : List ℕ → Receives
  interrupted : Receives
  recv_broken : Receives

-- What `Nrecv` returns: a negative code, or the bytes now in the buffer, whose number it returns.
pub data Received : Type 0 where
  failed : ℤ → Received
  buffer : List ℕ → Received

-- `r`, the bytes that the call says it received. Under `MSG_TRUNC` that is all of a datagram.
abbrev pub received_count : Bool → ℕ → List ℕ → ℕ
received_count msg_trunc nleft bytes = if msg_trunc then length bytes else min nleft (length bytes)

-- what `nleft` and `buf` advance by
abbrev pub advance : Bool → ℕ → ℕ → ℕ
advance msg_trunc nleft r = if msg_trunc then (if ltb nleft r then nleft else r) else r

-- The loop of `Nrecv_no_select`; `got` is the buffer up to `buf`.
unfoldable pub nrecv_no_select_loop : Bool → ℕ → List ℕ → List Receives → Option Received
nrecv_no_select_loop msg_trunc zero got calls = some (buffer got)
nrecv_no_select_loop msg_trunc (suc n) got [] = none
nrecv_no_select_loop msg_trunc (suc n) got (interrupted ∷ calls) = some (buffer got)
nrecv_no_select_loop msg_trunc (suc n) got (recv_broken ∷ calls) = some (failed net_harderror)
nrecv_no_select_loop msg_trunc (suc n) got (arrives bytes ∷ calls) =
    let r = received_count msg_trunc (suc n) bytes in
    let step = advance msg_trunc (suc n) r in
    let rest = nrecv_no_select_loop msg_trunc (suc n - step) (got ++ take step bytes) calls in
    if r == 0 then some (buffer got) else rest

unfoldable pub nrecv_no_select : Bool → ℕ → List Receives → Option Received
unfolding nrecv_no_select_loop
nrecv_no_select msg_trunc count calls = nrecv_no_select_loop msg_trunc count [] calls

-- `nread_overall_timeout`
abbrev pub overall_timeout : ℕ
overall_timeout = 30

-- a `select` with the read timeout
pub data Selects : Type 0 where
  readable : Selects
  timed_out : Selects
  select_broken : Selects

-- One round of `Nrecv`: the read, the clock after it and the `select` before the next one.
pub record Round : Type 0 where
  pub call : Receives
  pub now : Time
  pub select : Selects

-- `ftimeout`, which is set by the first round that leaves bytes to read
unfoldable pub next_timeout : Time → Time → Time
unfolding time_add_usecs
next_timeout ftimeout now =
    if ftimeout.secs == 0 then time_add_usecs now (overall_timeout * usecs_per_sec) else ftimeout

-- The end of a round that leaves bytes to read: `rest` is the next round.
nrecv_wait : List ℕ → Time → Round → Option Received → Option Received
unfolding time_compare
nrecv_wait got ftimeout round rest =
    if is_negative (time_compare ftimeout round.now)
    then some (buffer got)
    else elim (round.select) [
      | readable ↦ rest
      | timed_out ↦ some (buffer got)
      | select_broken ↦ some (failed net_harderror)
    ]

-- The loop of `Nrecv`. It is entered with bytes left to read.
unfoldable pub nrecv_loop : Bool → ℕ → List ℕ → Time → List Round → Option Received
unfolding nrecv_wait next_timeout
nrecv_loop msg_trunc nleft got ftimeout [] = none
nrecv_loop msg_trunc nleft got ftimeout (round ∷ rounds) = elim (round.call) [
  | interrupted ↦ some (buffer got)
  | recv_broken ↦ some (failed net_harderror)
  | arrives bytes ↦
      let r = received_count msg_trunc nleft bytes in
      let step = advance msg_trunc nleft r in
      let got' = got ++ take step bytes in
      let ftimeout' = next_timeout ftimeout round.now in
      let rest = nrecv_loop msg_trunc (nleft - step) got' ftimeout' rounds in
      if r == 0
      then some (buffer got)
      else if nleft - step == 0
      then some (buffer got')
      else nrecv_wait got' ftimeout' round rest
]

-- `Nrecv`, with the first `select`.
unfoldable pub nrecv : Bool → ℕ → Selects → List Round → Option Received
unfolding nrecv_loop
nrecv msg_trunc count timed_out rounds = some (buffer [])
nrecv msg_trunc count select_broken rounds = some (failed net_harderror)
nrecv msg_trunc count readable rounds =
    if count == 0
    then some (buffer [])
    else nrecv_loop msg_trunc count [] (record { secs = 0; usecs = 0 }) rounds

-- One `write`: the bytes that it takes, an errno of `EINTR`, `EAGAIN` or `EWOULDBLOCK`, of
-- `ENOBUFS`, or another.
pub data Writes : Type 0 where
  takes : ℕ → Writes
  write_again : Writes
  no_buffers : Writes
  write_broken : Writes

-- The loop of `Nwrite` over `buf[0..nleft)`: the `int` that it returns, and the bytes that went out.
unfoldable pub nwrite_loop : ℕ → List ℕ → List ℕ → List Writes → Option (ℤ × List ℕ)
nwrite_loop count [] sent calls = some (i32 count, sent)
nwrite_loop count (b ∷ buf) sent [] = none
nwrite_loop count (b ∷ buf) sent (write_again ∷ calls) =
    some (if count == length (b ∷ buf) then net_softerror else i32 (count - length (b ∷ buf)), sent)
nwrite_loop count (b ∷ buf) sent (no_buffers ∷ calls) = some (net_softerror, sent)
nwrite_loop count (b ∷ buf) sent (write_broken ∷ calls) = some (net_harderror, sent)
nwrite_loop count (b ∷ buf) sent (takes n ∷ calls) =
    let r = min n (length (b ∷ buf)) in
    let rest = nwrite_loop count (drop r (b ∷ buf)) (sent ++ take r (b ∷ buf)) calls in
    if r == 0 then some (net_softerror, sent) else rest

unfoldable pub nwrite : List ℕ → List Writes → Option (ℤ × List ℕ)
unfolding nwrite_loop
nwrite buf calls = nwrite_loop (length buf) buf [] calls
