-- ===== src/Log/Content.antt =====
-- What reaches the file of a log whose stream works (iperf_bounded_log.c): the tail moves bytes and
-- neither drops nor reorders them.
use iperf_swift.Prelude.{
  ℕ, ◌+◌, ◌-◌, ◌≤◌, ◌<◌, ◌≡◌, min, some, List, [], ◌∷◌, ◌++◌, ap, ◌∙◌, arith, length, take, drop,
  length-take, length-append, ◌⊎◌, inl, inr, take-append-drop,
}
use mathlib.Core.List.{append_assoc, append-nil}
use iperf_swift.Prelude.Slices.{take-all, drop-all}
use iperf_swift.Prelude.Words.{u64_mod}
use iperf_swift.Log.{BoundedLog, write_bytes, retain_prefix}
use iperf_swift.Log.Tail.{flush_of, old_of}

-- A log whose stream has worked so far and goes on working, over a file of `existing` bytes;
-- `content` is what this log wrote.
pub record IsHealthy (existing : ℕ) (content : List ℕ) (log : BoundedLog) : Type 0 where
  pub stream : log.sink ≡ some (record { content = content; outcomes = [] })
  pub no_error : log.status.write_errno ≡ 0
  pub counted : log.status.file_bytes ≡ existing + length content

pub write_bytes-IsHealthy :
    (existing : ℕ) (bytes content : List ℕ) (log : BoundedLog)
    → IsHealthy existing content log
    → existing + length content + length bytes < u64_mod
    → IsHealthy existing (content ++ bytes) (write_bytes bytes log)
unfolding write_bytes
write_bytes-IsHealthy existing [] content log h small = ground (arith, append-nil content)
write_bytes-IsHealthy existing (b ∷ bytes) content log h small =
    ground (arith, length-append content (b ∷ bytes))

regroup : (a b c d : List ℕ) → a ++ b ++ (c ++ d) ≡ a ++ (b ++ c) ++ d
regroup a b c d = simp append_assoc

-- The two cuts of `retain_prefix` lose nothing.
retain-append :
    (content tail bytes : List ℕ) (old rest : ℕ)
    → (rest ≡ 0) ⊎ (length tail ≤ old)
    → ((content ++ take old tail) ++ take rest bytes) ++ (drop old tail ++ drop rest bytes)
      ≡ (content ++ tail) ++ bytes
retain-append content tail bytes old rest (inl e) =
    rw (e, append-nil) (rw regroup (rw take-append-drop))
retain-append content tail bytes old rest (inr le) =
    rw (take-all tail old le, drop-all tail old le)
      (append_assoc (content ++ tail) (take rest bytes) (drop rest bytes)
        ∙ ap (λ r. content ++ tail ++ r) (take-append-drop rest bytes))

-- what is in the file after `retain_prefix`
abbrev pub flushed : List ℕ → List ℕ → List ℕ → List ℕ
flushed content bytes tail =
    let old = old_of (length tail) (length bytes) in
    content ++ take old tail ++ take (flush_of (length tail) (length bytes) - old) bytes

pub retain_prefix-IsHealthy :
    (existing : ℕ) (bytes content : List ℕ) (log : BoundedLog)
    → IsHealthy existing content log
    → existing + length content + length log.tail + length bytes < u64_mod
    → let content' = flushed content bytes log.tail in
      IsHealthy existing content' (retain_prefix bytes log)
      × (content' ++ (retain_prefix bytes log).tail ≡ (content ++ log.tail) ++ bytes)
unfolding retain_prefix
retain_prefix-IsHealthy existing bytes content log h small =
    let n = length log.tail in
    let old = old_of n (length bytes) in
    let rest = flush_of n (length bytes) - old in
    let log1 = write_bytes (take old log.tail) log in
    let lengths : (length (take old log.tail) ≡ min old n)
        × (length (take rest bytes) ≡ min rest (length bytes)) =
      (length-take old log.tail, length-take rest bytes) in
    let h1 = write_bytes-IsHealthy existing (take old log.tail) content log h (omega arith) in
    let h2 =
      write_bytes-IsHealthy existing (take rest bytes) (content ++ take old log.tail) log1 h1
        (omega (arith, length-append content (take old log.tail))) in
    (
      record { stream = h2.stream; no_error = h2.no_error; counted = h2.counted },
      retain-append content log.tail bytes old rest (ground arith),
    )
