-- ===== src/Udp/Calls.antt =====
-- Whole calls of `iperf_udp_send` and `iperf_udp_recv` (iperf_udp.c).
use iperf_swift.Prelude.{
  ℕ, zero, suc, ◌+◌, ◌-◌, ◌*◌, ◌≤◌, ◌<◌, ◌≡◌, refl, Bool, true, false, List, [], ◌∷◌, length, take,
  drop, some, arith, ◌==◌, Bool-cases, inl, inr, length-drop, length-take, ◌^◌,
}
use iperf_swift.Prelude.Words.{u64, u32_mod, u64_mod}
use iperf_swift.Prelude.Int.{ℤ, pos, negsuc}
use iperf_swift.Time.{Time}
use iperf_swift.Net.{Received, failed, buffer, net_harderror}
use iperf_swift.Net.Transfer.{Within}
use iperf_swift.Udp.{Floats, UdpStream, UdpSettings}
use iperf_swift.Udp.Receive.{
  receive_packet, receive_loop, receive_bytes, receive_size, receive_result, udp_recv, count_packet,
}
use iperf_swift.Udp.Send.{segment_sizes, send_finish, udp_send}
use iperf_swift.Udp.Accounts.{count_packets, Accounts, count_packet-Accounts, Each}
use iperf_swift.Udp.Numbering.{SameCounts, send_loop-Numbered, turns-le, counter_mod}

-- The packet count after a write that returned `r`, with `n` before and `k` datagrams in the buffer.
abbrev pub count_after : ℕ → ℕ → ℤ → ℕ
count_after n k (negsuc e) = n + k - 1
count_after n k (pos zero) = n + k - 1
count_after n k (pos (suc r)) = n + k

count_after_lem :
    {F : Type 0} (n k : ℕ) (r : ℤ) (sp : UdpStream F)
    → sp.packet_count ≡ n + k
    → 1 ≤ k
    → n + k < u64_mod
    → (send_finish r sp).packet_count ≡ count_after n k r
unfolding send_finish
count_after_lem n k (negsuc e) sp h one small = ground arith
count_after_lem n k (pos zero) sp h one small = ground arith
count_after_lem n k (pos (suc r)) sp h one small = h

wide_counter : (c : Bool) (n : ℕ) → n < counter_mod c → n < u64_mod
wide_counter true n h = h
wide_counter false n h = omega arith

-- A send of `k` datagrams moves the packet count by `k` if the write took something, and by `k - 1`
-- if not: the numbering is restored after a failure exactly when the buffer has one datagram.
pub packet_count-udp_send :
    {F : Type 0} (settings : UdpSettings) (write : List ℕ → ℤ) (clock : ℕ → Time) (sp : UdpStream F)
    (k extra : ℕ)
    → 1 ≤ k
    → let (d, size, gso) = segment_sizes settings in
      16 ≤ d
      → extra < d
      → size ≡ k * d + extra
      → size ≤ length sp.send_buffer
      → sp.packet_count + k < counter_mod settings.udp_counters_64bit
      → ((i : ℕ) → ((clock i).secs < u32_mod) × ((clock i).usecs < u32_mod))
      → let (sp', r, gso') = udp_send settings write clock sp in
        sp'.packet_count ≡ count_after sp.packet_count k r
unfolding udp_send
packet_count-udp_send settings write clock sp k extra one wide short size room small times =
    let (d, size_, gso) = segment_sizes settings in
    let buf = take size_ sp.send_buffer in
    let size' : length buf ≡ k * d + extra = omega (arith, length-take size_ sp.send_buffer) in
    let n =
      send_loop-Numbered k size_ k d extra settings.udp_counters_64bit clock buf sp.packet_count
        wide short size' (rw size (turns-le k d extra wide)) (omega arith) small times in
    count_after_lem sp.packet_count k _ _ n.counted one
      (wide_counter settings.udp_counters_64bit (sp.packet_count + k) small)

receive_loop-stop :
    (fl : Floats) (fuel d : ℕ) (c first : Bool) (clock : ℕ → Time) (bytes : List ℕ)
    (sp : UdpStream (fl.F))
    → length bytes < d
    → receive_loop fl fuel d c first clock bytes sp ≡ sp
unfolding receive_loop
receive_loop-stop fl zero d c first clock bytes sp h = refl
receive_loop-stop fl (suc fuel) d c first clock bytes sp h = ground arith

-- Fuel for every byte is enough for the receiving loop: more makes no difference.
pub receive_loop_fuel :
    (fl : Floats) (fuel more d : ℕ) (c first : Bool) (clock : ℕ → Time) (bytes : List ℕ)
    (sp : UdpStream (fl.F))
    → 0 < d
    → length bytes ≤ fuel
    → receive_loop fl (fuel + more) d c first clock bytes sp
      ≡ receive_loop fl fuel d c first clock bytes sp
unfolding receive_loop
receive_loop_fuel fl zero more d c first clock bytes sp p h =
    receive_loop-stop fl (0 + more) d c first clock bytes sp (omega arith)
receive_loop_fuel fl (suc fuel) more d c first clock bytes sp p h =
    let more_is : suc fuel + more ≡ suc (fuel + more) = omega arith in
    rw more_is (
      rw (
        receive_loop_fuel fl fuel more d c false (λ n. clock (n + 1)) (drop d bytes)
          (receive_packet fl c first (clock 0) bytes sp) p (omega (arith, length-drop d bytes))))

-- Over any packets, duplicates included, what is counted as lost makes up for what did not arrive:
-- with the packets received it covers the packet count, and exceeds it by no more than the packets
-- counted as out of order.
pub count_packets-Accounts :
    {F : Type 0} (packets seen : List ℕ) (sp : UdpStream F)
    → Each (λ n. n < 2 ^ 63) packets
    → length seen + length packets < 2 ^ 63
    → Accounts seen sp
    → (let sp' = count_packets packets sp in
        (sp'.packet_count ≤ sp'.cnt_error + (length seen + length packets))
        × (sp'.cnt_error + (length seen + length packets)
            ≤ sp'.packet_count + sp'.outoforder_packets))
unfolding count_packets
count_packets-Accounts [] seen sp r few a = omega (arith, a.lost_enough, a.lost_at_most)
count_packets-Accounts (x ∷ xs) seen sp r few a = omega (
  arith,
  count_packets-Accounts xs (x ∷ seen) (count_packet x sp) r.1 (omega arith)
      (count_packet-Accounts x sp r.0 a.small seen (omega arith) a),
)

SameCounts-refl : {F : Type 0} (sp : UdpStream F) → SameCounts sp sp
SameCounts-refl sp = record { same_packets = refl; same_errors = refl; same_late = refl }

receive_bytes-short :
    (fl : Floats) (settings : UdpSettings) (running : Bool) (clock : ℕ → Time) (bytes : List ℕ)
    (sp : UdpStream (fl.F))
    → length bytes < settings.blksize
    → SameCounts (receive_bytes fl settings running clock bytes sp) sp
unfolding receive_bytes
receive_bytes-short fl settings false clock bytes sp h = SameCounts-refl sp
receive_bytes-short fl settings true clock bytes sp h =
    let c = settings.udp_counters_64bit in
    let counted = record sp {
      bytes_received = u64 (sp.bytes_received + length bytes);
      bytes_received_this_interval = u64 (sp.bytes_received_this_interval + length bytes);
    } in
    rw
      (receive_loop-stop fl (length bytes) settings.blksize c (sp.bytes_received == 0) clock bytes
        counted h)
      (record { same_packets = refl; same_errors = refl; same_late = refl })

receive_result-short :
    (fl : Floats) (settings : UdpSettings) (running : Bool) (clock : ℕ → Time)
    (sp : UdpStream (fl.F)) (r : Received)
    → 16 < settings.blksize
    → Within 16 (some r)
    → SameCounts (receive_result fl settings running clock sp r).0 sp
unfolding receive_result
receive_result-short fl settings running clock sp (failed e) wide w = SameCounts-refl sp
receive_result-short fl settings running clock sp (buffer bytes) wide w =
    elim (Bool-cases (length bytes == 0)) [
      | inl eof ↦ rw eof (SameCounts-refl sp)
      | inr more ↦
          let positive : (settings.blksize == 0) ≡ false = ground arith in
          rw (more, positive) (receive_bytes-short fl settings running clock bytes sp (omega arith))
    ]

-- With `skip_rx_copy` no read returns more than 16 bytes, so with any larger block size no packet is
-- counted, whatever arrives.
pub udp_recv_skip_rx_copy :
    (fl : Floats) (settings : UdpSettings) (running : Bool) (read : ℕ → Received) (clock : ℕ → Time)
    (sp : UdpStream (fl.F))
    → settings.skip_rx_copy ≡ true
    → 16 < settings.blksize
    → ((n : ℕ) → Within n (some (read n)))
    → SameCounts (udp_recv fl settings running read clock sp).0 sp
unfolding udp_recv receive_size
udp_recv_skip_rx_copy fl settings running read clock sp skip wide within =
    elim (Bool-cases settings.gro) [
      | inl on ↦
          rw on (receive_result-short fl settings running clock sp (failed net_harderror) wide tt)
      | inr off ↦
          rw (off, skip)
            (receive_result-short fl settings running clock sp (read 16) wide (within 16))
    ]
