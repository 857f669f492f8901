-- ===== src/Log/Tail.antt =====
-- What a write and the held-back tail do to the counters of a log (iperf_bounded_log.c), with any
-- outcome of the stream's writes.
use iperf_swift.Prelude.{
  ℕ, ◌+◌, ◌-◌, ◌≤◌, ◌<◌, ◌≡◌, refl, inl, inr, Option, Option-cases, none, some, min, List, [], ◌∷◌,
  arith, length, take, drop, length-take, length-drop, length-append, ltb, if◌then◌else◌,
}
use iperf_swift.Prelude.Words.{u64_mod}
use iperf_swift.Log.{Outcome, Sink, BoundedLog, tail_size_max, write_bytes, retain_prefix}

-- What a write leaves alone.
pub record Frame (log log' : BoundedLog) : Type 0 where
  pub same_capacity : log'.capacity ≡ log.capacity
  pub same_accepted : log'.accepted ≡ log.accepted
  pub same_tail : log'.tail ≡ log.tail
  pub same_limit : log'.status.limit ≡ log.status.limit
  pub same_truncated : log'.status.truncated ≡ log.status.truncated
  pub same_open : log'.status.open_errno ≡ log.status.open_errno

pub write_bytes-Frame : (bytes : List ℕ) (log : BoundedLog) → Frame log (write_bytes bytes log)
unfolding write_bytes
write_bytes-Frame bytes log = ground arith

-- A write adds at most the bytes that it is given, whatever the stream takes of them.
pub file_bytes-write_bytes :
    (bytes : List ℕ) (log : BoundedLog)
    → log.status.file_bytes + length bytes < u64_mod
    → (log.status.file_bytes ≤ (write_bytes bytes log).status.file_bytes)
      × ((write_bytes bytes log).status.file_bytes ≤ log.status.file_bytes + length bytes)
unfolding write_bytes
file_bytes-write_bytes bytes log h = ground arith

-- the bytes that reached the file
abbrev pub size : Option Sink → ℕ
size none = 0
size (some s) = length s.content

-- the counter and the file grow together
abbrev pub GrowsWith : BoundedLog → BoundedLog → Type 0
GrowsWith log log' = log'.status.file_bytes + size log.sink ≡ log.status.file_bytes + size log'.sink

write_sink-GrowsWith :
    (bytes : List ℕ) (log : BoundedLog) (s : Sink) (outcomes : List Outcome)
    → log.status.file_bytes + length bytes < u64_mod
    → log.sink ≡ some s
    → s.outcomes ≡ outcomes
    → GrowsWith log (write_bytes bytes log)
unfolding write_bytes
write_sink-GrowsWith bytes log s [] small e os = ground (arith, length-append s.content bytes)
write_sink-GrowsWith bytes log s (o ∷ rest) small e os =
    ground (arith, length-append s.content (take o.accepts bytes), length-take o.accepts bytes)

pub write_bytes-GrowsWith :
    (bytes : List ℕ) (log : BoundedLog)
    → log.status.file_bytes + length bytes < u64_mod
    → GrowsWith log (write_bytes bytes log)
unfolding write_bytes
write_bytes-GrowsWith bytes log small = elim (Option-cases log.sink) [
  | inl closed ↦ ground arith
  | inr (s, e) ↦ write_sink-GrowsWith bytes log s s.outcomes small e refl
]

-- The tail fills up to its array's size and never past it, and what the file gains is no more than
-- what left the tail.
pub record Retained (bytes : List ℕ) (log log' : BoundedLog) : Type 0 where
  pub tail_filled : length log'.tail ≡ min tail_size_max (length log.tail + length bytes)
  pub file_grows : log.status.file_bytes ≤ log'.status.file_bytes
  pub file_fits :
      log'.status.file_bytes + length log'.tail
      ≤ log.status.file_bytes + length log.tail + length bytes
  pub same_capacity : log'.capacity ≡ log.capacity
  pub same_accepted : log'.accepted ≡ log.accepted
  pub same_limit : log'.status.limit ≡ log.status.limit
  pub same_truncated : log'.status.truncated ≡ log.status.truncated
  pub same_open : log'.status.open_errno ≡ log.status.open_errno
  pub grows : GrowsWith log log'

-- `flush` and `old` of `retain_prefix`
abbrev pub flush_of : ℕ → ℕ → ℕ
flush_of n count = if ltb tail_size_max (n + count) then n + count - tail_size_max else 0

abbrev pub old_of : ℕ → ℕ → ℕ
old_of n count = if ltb (flush_of n count) n then flush_of n count else n

pub retain_prefix-Retained :
    (bytes : List ℕ) (log : BoundedLog)
    → length log.tail ≤ tail_size_max
    → log.status.file_bytes + length log.tail + length bytes < u64_mod
    → Retained bytes log (retain_prefix bytes log)
unfolding retain_prefix
retain_prefix-Retained bytes log t h =
    let n = length log.tail in
    let old = old_of n (length bytes) in
    let rest = flush_of n (length bytes) - old in
    let log1 = write_bytes (take old log.tail) log in
    ground (
      arith,
      write_bytes-Frame (take old log.tail) log,
      write_bytes-Frame (take rest bytes) log1,
      file_bytes-write_bytes (take old log.tail) log,
      file_bytes-write_bytes (take rest bytes) log1,
      write_bytes-GrowsWith (take old log.tail) log,
      write_bytes-GrowsWith (take rest bytes) log1,
      length-take old log.tail,
      length-take rest bytes,
      length-drop old log.tail,
      length-drop rest bytes,
      length-append (drop old log.tail) (drop rest bytes),
    )
