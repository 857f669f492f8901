-- ===== src/Udp/Numbering.antt =====
-- The numbers that the sender puts into a buffer (iperf_udp.c) and what the receiver counts there.
use native.Mathlib.Nat.{mod-eq_of_lt}
use iperf_swift.Prelude.{
  ℕ, zero, suc, ◌+◌, ◌-◌, ◌*◌, ◌≤◌, ◌<◌, ◌≡◌, refl, ap, ◌∙◌, sym, Bool, true, false, ◌||◌, ◌&&◌,
  List, [], ◌∷◌, ◌++◌, length, take, drop, arith, if◌then◌else◌, ◌==◌, ltb, Bool-cases, inl, inr,
  length-append, length-take, length-drop,
}
use iperf_swift.Prelude.Slices.{take-append_add, drop-append_left}
use mathlib.Core.List.{append_assoc}
use iperf_swift.Prelude.Words.{u64, u32_mod, u64_mod}
use iperf_swift.Time.{Time}
use iperf_swift.Udp.{Floats, UdpStream, min_pkt_size}
use iperf_swift.Udp.Header.{read_header, write_header, read_header-write_header}
use iperf_swift.Udp.Receive.{count_packet, receive_packet, receive_loop, measure_jitter}
use iperf_swift.Udp.Send.{send_loop}
use iperf_swift.Udp.Accounts.{count_packets}

-- The numbers that the receiver finds in a buffer.
pub header_numbers : ℕ → ℕ → Bool → List ℕ → List ℕ
header_numbers zero dgram_sz counters_64bit bytes = []
header_numbers (suc fuel) dgram_sz counters_64bit bytes =
    let rest =
      (read_header counters_64bit bytes).1
      ∷ header_numbers fuel dgram_sz counters_64bit (drop dgram_sz bytes) in
    if ltb (length bytes) dgram_sz
      || ltb (length bytes) min_pkt_size
      || counters_64bit && ltb (length bytes) 16
    then []
    else rest

-- equal packet counters
pub record SameCounts {F : Type 0} (a b : UdpStream F) : Type 0 where
  pub same_packets : a.packet_count ≡ b.packet_count
  pub same_errors : a.cnt_error ≡ b.cnt_error
  pub same_late : a.outoforder_packets ≡ b.outoforder_packets

SameCounts-count_packet :
    {F : Type 0} (n : ℕ) (a b : UdpStream F)
    → SameCounts a b
    → SameCounts (count_packet n a) (count_packet n b)
unfolding count_packet
SameCounts-count_packet n a b s = ground arith

SameCounts-count_packets :
    {F : Type 0} (ns : List ℕ) (a b : UdpStream F)
    → SameCounts a b
    → SameCounts (count_packets ns a) (count_packets ns b)
unfolding count_packets
SameCounts-count_packets [] a b s = s
SameCounts-count_packets (n ∷ ns) a b s =
    SameCounts-count_packets ns (count_packet n a) (count_packet n b)
      (SameCounts-count_packet n a b s)

SameCounts-trans :
    {F : Type 0} {a b c : UdpStream F} → SameCounts a b → SameCounts b c → SameCounts a c
SameCounts-trans s t = record {
  same_packets = s.same_packets ∙ t.same_packets;
  same_errors = s.same_errors ∙ t.same_errors;
  same_late = s.same_late ∙ t.same_late;
}

module _ (fl : Floats) where
  open fl use {F}

  -- The loop over a buffer counts exactly the numbers of its headers; jitter and clock do not touch
  -- the counters.
  pub receive_loop-SameCounts :
      (fuel dgram_sz : ℕ) (counters_64bit first_packet : Bool) (clock : ℕ → Time) (bytes : List ℕ)
      (sp : UdpStream F)
      → SameCounts
          (receive_loop fl fuel dgram_sz counters_64bit first_packet clock bytes sp)
          (count_packets (header_numbers fuel dgram_sz counters_64bit bytes) sp)
  unfolding receive_loop header_numbers count_packets receive_packet measure_jitter count_packet
  receive_loop-SameCounts zero dgram_sz c first clock bytes sp = record {
    same_packets = refl;
    same_errors = refl;
    same_late = refl;
  }
  receive_loop-SameCounts (suc fuel) dgram_sz c first clock bytes sp =
      let stop =
        ltb (length bytes) dgram_sz
        || ltb (length bytes) min_pkt_size
        || c && ltb (length bytes) 16 in
      let sp' = receive_packet fl c first (clock 0) bytes sp in
      let n = (read_header c bytes).1 in
      let one : SameCounts sp' (count_packet n sp) = record {
        same_packets = refl;
        same_errors = refl;
        same_late = refl;
      } in
      let rest = header_numbers fuel dgram_sz c (drop dgram_sz bytes) in
      elim (Bool-cases stop) [
        | inl e ↦ rw e (record { same_packets = refl; same_errors = refl; same_late = refl })
        | inr e ↦ rw e (
            SameCounts-trans
              (receive_loop-SameCounts fuel dgram_sz c false (λ n. clock (n + 1))
                (drop dgram_sz bytes) sp')
              (SameCounts-count_packets rest sp' (count_packet n sp) one))
      ]

-- the next `k` numbers after `n`
abbrev pub numbers : ℕ → ℕ → List ℕ
numbers n zero = []
numbers n (suc k) = (n + 1) ∷ numbers (n + 1) k

-- the modulus of the counter in the header
abbrev pub counter_mod : Bool → ℕ
counter_mod counters_64bit = if counters_64bit then u64_mod else u32_mod

length-write_header :
    (c : Bool) (t : Time) (n : ℕ) → length (write_header c t n) ≡ (if c then 16 else 12)
unfolding write_header
length-write_header true t n = refl
length-write_header false t n = refl

-- The buffer of the sender, read by the receiver.
pub record Numbered (k g dgram_sz : ℕ) (c : Bool) (buf : List ℕ) (n : ℕ) (out : List ℕ × ℕ)
    : Type 0 where
  pub found : header_numbers g dgram_sz c out.0 ≡ numbers n k
  pub counted : out.1 ≡ n + k
  pub sized : length out.0 ≡ length buf

-- One turn of both loops.
Numbered-turn :
    (k g dgram_sz : ℕ) (c : Bool) (t : Time) (buf : List ℕ) (n : ℕ) (rest : List ℕ × ℕ)
    → 16 ≤ dgram_sz
    → dgram_sz ≤ length buf
    → n + 1 < counter_mod c
    → t.secs < u32_mod
    → t.usecs < u32_mod
    → let header = write_header c t (n + 1) in
      let written = header ++ drop (length header) buf in
      Numbered k g dgram_sz c (drop dgram_sz written) (n + 1) rest
      → Numbered (suc k) (suc g) dgram_sz c buf n (take dgram_sz written ++ rest.0, rest.1)
unfolding header_numbers
Numbered-turn k g dgram_sz c t buf n rest wide room small s u r =
    let header = write_header c t (n + 1) in
    let h-le : length header ≤ 16 = rw length-write_header (ground arith) in
    let body = take (dgram_sz - length header) (drop (length header) buf) in
    let written = header ++ drop (length header) buf in
    let first : take dgram_sz written ≡ header ++ body =
      ap (λ m. take m written) (omega arith)
      ∙ take-append_add header (drop (length header) buf) (dgram_sz - length header) in
    let size : length (take dgram_sz written) ≡ dgram_sz = omega (
      arith,
      length-take dgram_sz written,
      length-append header (drop (length header) buf),
      length-drop (length header) buf,
    ) in
    let rest_is : drop dgram_sz (take dgram_sz written ++ rest.0) ≡ rest.0 =
      ap (λ m. drop m (take dgram_sz written ++ rest.0)) (sym size)
      ∙ drop-append_left (take dgram_sz written) rest.0 in
    let read : (read_header c (take dgram_sz written ++ rest.0)).1 ≡ n + 1 =
      ap (λ x. (read_header c (x ++ rest.0)).1) first
      ∙ ap (λ x. (read_header c x).1) (append_assoc header body rest.0)
      ∙ ap (λ (x : Time × ℕ). x.1) (read_header-write_header c t (n + 1) (body ++ rest.0) s u)
      ∙ mod-eq_of_lt small in
    let total : length (take dgram_sz written ++ rest.0) ≡ length buf = omega (
      arith,
      size,
      length-append (take dgram_sz written) rest.0,
      r.sized,
      length-drop dgram_sz written,
      length-append header (drop (length header) buf),
      length-drop (length header) buf,
    ) in
    let going : (ltb (length (take dgram_sz written ++ rest.0)) dgram_sz
          || ltb (length (take dgram_sz written ++ rest.0)) min_pkt_size
          || c && ltb (length (take dgram_sz written ++ rest.0)) 16)
        ≡ false =
      rw total (ground arith) in
    record {
      found = rw going (rw (read, rest_is) (ap (λ x. (n + 1) ∷ x) r.found));
      counted = omega (arith, r.counted);
      sized = total;
    }

send_loop-stop :
    (f dgram_sz : ℕ) (c : Bool) (clock : ℕ → Time) (buf : List ℕ) (n : ℕ)
    → length buf < dgram_sz
    → send_loop f dgram_sz c clock buf n ≡ (buf, n)
unfolding send_loop
send_loop-stop zero dgram_sz c clock buf n h = refl
send_loop-stop (suc f) dgram_sz c clock buf n h = ground arith

pub header_numbers-stop :
    (g dgram_sz : ℕ) (c : Bool) (bytes : List ℕ)
    → length bytes < dgram_sz
    → header_numbers g dgram_sz c bytes ≡ []
unfolding header_numbers
header_numbers-stop zero dgram_sz c bytes h = refl
header_numbers-stop (suc g) dgram_sz c bytes h = ground arith

pub send_loop-Numbered :
    (k f g dgram_sz extra : ℕ) (c : Bool) (clock : ℕ → Time) (buf : List ℕ) (n : ℕ)
    → 16 ≤ dgram_sz
    → extra < dgram_sz
    → length buf ≡ k * dgram_sz + extra
    → k ≤ f
    → k ≤ g
    → n + k < counter_mod c
    → ((i : ℕ) → ((clock i).secs < u32_mod) × ((clock i).usecs < u32_mod))
    → Numbered k g dgram_sz c buf n (send_loop f dgram_sz c clock buf n)
unfolding send_loop
send_loop-Numbered zero f g d extra c clock buf n wide short size kf kg small times =
    rw (send_loop-stop f d c clock buf n (omega arith)) (record {
      found = header_numbers-stop g d c buf (omega arith);
      counted = omega arith;
      sized = refl;
    })
send_loop-Numbered (suc k) zero g d extra c clock buf n wide short size kf kg small times =
    absurd (omega arith)
send_loop-Numbered (suc k) (suc f) zero d extra c clock buf n wide short size kf kg small times =
    absurd (omega arith)
send_loop-Numbered (suc k) (suc f) (suc g) d extra c clock buf n wide short size kf kg small times =
    let room : d ≤ length buf = omega (arith, size) in
    let going : (length buf == 0 || ltb (length buf) d) ≡ false = ground arith in
    let count : u64 (n + 1) ≡ n + 1 = ground arith in
    let header = write_header c (clock 0) (n + 1) in
    let written = header ++ drop (length header) buf in
    let h-le : length header ≤ 16 = rw length-write_header (ground arith) in
    rw (going, count)
      (Numbered-turn k g d c (clock 0) buf n
        (send_loop f d c (λ i. clock (i + 1)) (drop d written) (n + 1)) wide room (ground arith)
        (times 0).0 (times 0).1
        (send_loop-Numbered k f g d extra c (λ i. clock (i + 1)) (drop d written) (n + 1) wide short
          (omega (
            arith,
            size,
            length-drop d written,
            length-append header (drop (length header) buf),
            length-drop (length header) buf,
          ))
          (omega arith) (omega arith) (ground arith) (λ i. times (i + 1))))

-- Packets that come in order are neither lost nor late.
count_packets-numbers :
    {F : Type 0} (k n : ℕ) (sp : UdpStream F)
    → sp.packet_count ≡ n
    → n + k < u64_mod
    → SameCounts (count_packets (numbers n k) sp) (record sp { packet_count = n + k })
unfolding count_packets count_packet
count_packets-numbers zero n sp e h = record {
  same_packets = omega arith;
  same_errors = refl;
  same_late = refl;
}
count_packets-numbers (suc k) n sp e h =
    let next = count_packet (n + 1) sp in
    let rest = count_packets-numbers k (n + 1) next (ground arith) (omega arith) in
    record {
      same_packets = rest.same_packets ∙ omega arith;
      same_errors = rest.same_errors ∙ ground arith;
      same_late = rest.same_late ∙ ground arith;
    }

pub turns-le : (k d extra : ℕ) → 16 ≤ d → k ≤ k * d + extra
turns-le k d extra h = grind arith

-- A receiver that is up to date with the sender, and reads the buffer that the sender has filled
-- with `k` datagrams, gets to the sender's new packet count and counts nothing as lost or late. The
-- counter of the header does not wrap meanwhile.
pub send-receive_lossless :
    (fl : Floats) (k dgram_sz extra : ℕ) (c first_packet : Bool) (clock arrival : ℕ → Time)
    (buf : List ℕ) (sp : UdpStream (fl.F))
    → 16 ≤ dgram_sz
    → extra < dgram_sz
    → length buf ≡ k * dgram_sz + extra
    → sp.packet_count + k < counter_mod c
    → ((i : ℕ) → ((clock i).secs < u32_mod) × ((clock i).usecs < u32_mod))
    → let (sent, count) = send_loop (length buf) dgram_sz c clock buf sp.packet_count in
      let sp' = receive_loop fl (length sent) dgram_sz c first_packet arrival sent sp in
      (count ≡ sp.packet_count + k)
      × (sp'.packet_count ≡ count)
      × (sp'.cnt_error ≡ sp.cnt_error)
      × (sp'.outoforder_packets ≡ sp.outoforder_packets)
send-receive_lossless fl k d extra c first clock arrival buf sp wide short size small times =
    let n = sp.packet_count in
    let k-le : k ≤ length buf = rw size (turns-le k d extra wide) in
    let sized =
      (send_loop-Numbered k (length buf) k d extra c clock buf n wide short size k-le (omega arith)
        small times).sized in
    let sent = send_loop (length buf) d c clock buf n in
    let r =
      send_loop-Numbered k (length buf) (length sent.0) d extra c clock buf n wide short size k-le
        (omega (arith, sized)) small times in
    let counts = receive_loop-SameCounts fl (length sent.0) d c first arrival sent.0 sp in
    let all = count_packets-numbers k n sp refl (ground arith) in
    let same : SameCounts (receive_loop fl (length sent.0) d c first arrival sent.0 sp)
        (record sp { packet_count = n + k }) =
      SameCounts-trans counts (rw r.found all) in
    (r.counted, same.same_packets ∙ sym r.counted, same.same_errors, same.same_late)
