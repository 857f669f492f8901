-- ===== src/Log/Expected.antt =====
-- What a log of iperf_bounded_log.c is expected to hold: before its limit the stream of its writes,
-- past it the cut between UTF-8 sequences.
use iperf_swift.Prelude.{
  ℕ, ◌+◌, ◌-◌, ◌≤◌, ◌<◌, ◌≡◌, min, true, false, List, [], ◌++◌, ap, ◌∙◌, sym, arith, length, take,
  drop, length-take, length-drop, length-append, leb, if◌then◌else◌,
}
use iperf_swift.Prelude.Slices.{take-take, drop-take, drop-append_left, take-append_add}
use iperf_swift.Prelude.Words.{u64, u64_mod}
use iperf_swift.Log.{BoundedLog, tail_size_max, marker, marker_size, retain_prefix, utf8_prefix}
use iperf_swift.Log.Bounds.{utf8_prefix-le}
use iperf_swift.Log.Tail.{retain_prefix-Retained}
use iperf_swift.Log.Content.{IsHealthy, retain_prefix-IsHealthy, flushed}

-- The kept part of a stream that does not fit: at most three bytes short of the room that the
-- marker leaves.
abbrev pub cut_stream : ℕ → List ℕ → List ℕ
cut_stream capacity stream =
    let room = capacity - marker_size in
    let start = room - min 3 room in
    take (start + utf8_prefix (drop start (take room stream))) stream

-- What the file gains from a stream of bytes.
abbrev pub expected : ℕ → List ℕ → List ℕ
expected capacity stream =
    if leb (length stream) capacity then stream else cut_stream capacity stream ++ marker

-- Before the limit: the file and the tail hold the stream `all` that was written.
pub record Keeps (existing capacity : ℕ) (content all : List ℕ) (log : BoundedLog) : Type 0 where
  pub healthy : IsHealthy existing content log
  pub bytes : content ++ log.tail ≡ all
  pub tail_full : length log.tail ≡ min tail_size_max (length all)
  pub accepted_all : log.accepted ≡ length all
  pub capacity_is : log.capacity ≡ capacity
  pub fits : length all ≤ capacity
  pub opened : log.status.open_errno ≡ 0
  pub going : log.status.truncated ≡ false

-- Past the limit.
pub record IsCut (existing : ℕ) (content : List ℕ) (log : BoundedLog) : Type 0 where
  pub healthy : IsHealthy existing content log
  pub emptied : log.tail ≡ []
  pub cut : log.status.truncated ≡ true

pub length-Keeps :
    {existing capacity : ℕ} {content all : List ℕ} {log : BoundedLog}
    → Keeps existing capacity content all log
    → length content + length log.tail ≡ length all
length-Keeps {content = content} {log = log} k =
    omega (arith, length-append content log.tail, ap length k.bytes)

pub retain-Keeps :
    (existing capacity : ℕ) (content all bytes : List ℕ) (log : BoundedLog)
    → Keeps existing capacity content all log
    → existing + capacity < u64_mod
    → length all + length bytes ≤ capacity
    → let log1 = retain_prefix bytes log in
      Keeps existing capacity
        (flushed content bytes log.tail)
        (all ++ bytes)
        (record log1 { accepted = u64 (log1.accepted + length bytes) })
retain-Keeps existing capacity content all bytes log k small room =
    let (healthy, bytes_kept) =
      retain_prefix-IsHealthy existing bytes content log k.healthy
        (omega (arith, length-Keeps k)) in
    let r =
      retain_prefix-Retained bytes log (omega (arith, k.tail_full))
        (omega (arith, length-Keeps k, k.healthy.counted)) in
    record {
      healthy = record {
        stream = healthy.stream;
        no_error = healthy.no_error;
        counted = healthy.counted;
      };
      bytes = bytes_kept ∙ ap (λ x. x ++ bytes) k.bytes;
      tail_full = omega (arith, r.tail_filled, k.tail_full, length-append all bytes);
      accepted_all = omega (arith, r.same_accepted, k.accepted_all, length-append all bytes);
      capacity_is = r.same_capacity ∙ k.capacity_is;
      fits = omega (arith, length-append all bytes);
      opened = r.same_open ∙ k.opened;
      going = r.same_truncated ∙ k.going;
    }

-- Where the tail holds the end of a full stream, its cut is the stream's.
pub cut_content :
    (capacity : ℕ) (content tail : List ℕ)
    → marker_size ≤ capacity
    → length content + length tail ≡ capacity
    → length tail ≡ min tail_size_max capacity
    → content ++ take (utf8_prefix (take (length tail - marker_size) tail)) tail
      ≡ cut_stream capacity (content ++ tail)
cut_content capacity content tail m total full =
    let room = capacity - marker_size in
    let k = length tail - marker_size in
    let start_is : room - min 3 room ≡ length content = omega arith in
    let room_is : room ≡ length content + k = omega arith in
    let last : drop (room - min 3 room) (take room (content ++ tail)) ≡ take k tail =
      rw (start_is, room_is)
        (drop-take (content ++ tail) (length content) k
          ∙ ap (take k) (drop-append_left content tail)) in
    rw (last, start_is) (sym (take-append_add content tail (utf8_prefix (take k tail))))

pub cut_stream-take :
    (capacity : ℕ) (stream : List ℕ)
    → cut_stream capacity (take capacity stream) ≡ cut_stream capacity stream
cut_stream-take capacity stream =
    let room = capacity - marker_size in
    let start = room - min 3 room in
    let last = drop start (take room stream) in
    rw (take-take stream room capacity (omega arith)) (
      take-take stream (start + utf8_prefix last) capacity (
        omega (
          arith,
          utf8_prefix-le last,
          length-drop start (take room stream),
          length-take room stream,
        )))
