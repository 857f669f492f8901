-- ===== src/Udp/Tests.antt =====
-- A UDP stream of iperf_udp.c with small datagrams.
use iperf_swift.Prelude.{
  ℕ, zero, suc, ◌+◌, ◌-◌, ◌≤◌, ◌<◌, ◌≡◌, refl, true, false, List, [], ◌∷◌, ◌++◌, length, take,
  length-take, arith,
}
use iperf_swift.Prelude.Words.{u32_mod}
use iperf_swift.Prelude.Int.{ℤ, negsuc}
use iperf_swift.Time.{Time}
use iperf_swift.Net.{Received, buffer}
use iperf_swift.Udp.{Floats, UdpStream, UdpSettings}
use iperf_swift.Udp.Header.{read_header, write_header, read_header-write_header}
use iperf_swift.Udp.Receive.{receive_loop, udp_recv}
use iperf_swift.Udp.Send.{send_loop, segment_sizes, udp_send}
use iperf_swift.Udp.Accounts.{count_packets}
use iperf_swift.Udp.Loss.{highest_from, count_packets_lost}
use iperf_swift.Udp.Numbering.{SameCounts, send-receive_lossless}
use iperf_swift.Udp.Calls.{
  count_after, packet_count-udp_send, receive_loop_fuel, count_packets-Accounts,
  udp_recv_skip_rx_copy,
}

-- whole seconds in place of `double`
abbrev whole : Floats
whole = record {
  F = ℕ;
  zero_f = 0;
  in_secs = λ t. t.secs;
  add_f = λ x y. x + y;
  sub_f = λ x y. x - y;
  neg_f = λ x. x;
  div_16 = λ x. x;
  is_neg = λ x. false;
}

abbrev zeros : ℕ → List ℕ
zeros zero = []
zeros (suc n) = 0 ∷ zeros n

abbrev stream : UdpStream ℕ
stream = record {
  packet_count = 0;
  cnt_error = 0;
  outoforder_packets = 0;
  prev_transit = 0;
  jitter = 0;
  bytes_received = 0;
  bytes_received_this_interval = 0;
  bytes_sent = 0;
  bytes_sent_this_interval = 0;
  send_buffer = zeros 40;
}

abbrev settings : UdpSettings
settings = record {
  blksize = 20;
  skip_rx_copy = true;
  gro = false;
  gro_bf_size = 0;
  gso = true;
  gso_dg_size = 16;
  gso_bf_size = 36;
  udp_counters_64bit = true;
}

abbrev clock : ℕ → Time
clock n = record { secs = 7; usecs = 5 }

clock_in : (i : ℕ) → ((clock i).secs < u32_mod) × ((clock i).usecs < u32_mod)
clock_in i = (omega arith, omega arith)

-- a socket with a datagram of 20 bytes, and one that fails
abbrev read : ℕ → Received
read n = buffer (take n (zeros 20))

abbrev broken_write : List ℕ → ℤ
broken_write bytes = negsuc 0

read_header-write_header_example :
    read_header false (write_header false (clock 0) 4294967298 ++ 1 ∷ []) ≡ (clock 0, 2)
read_header-write_header_example =
    read_header-write_header false (clock 0) 4294967298 (1 ∷ []) (omega arith) (omega arith)

abbrev arrived : List ℕ
arrived = 2 ∷ 5 ∷ 3 ∷ []

count_packets_lost_example :
    ((count_packets arrived stream).packet_count ≡ highest_from 0 arrived)
    × ((count_packets arrived stream).cnt_error + length arrived ≡ highest_from 0 arrived)
count_packets_lost_example =
    count_packets_lost arrived stream refl refl refl
      ((omega arith, (omega arith, tt)), ((omega arith, tt), (tt, tt)))
      ((omega arith, omega arith), ((omega arith, omega arith), ((omega arith, omega arith), tt)))
      (omega arith)

count_packets-Accounts_example :
    (let sp' = count_packets (5 ∷ 5 ∷ 3 ∷ []) stream in
      (sp'.packet_count ≤ sp'.cnt_error + (0 + 3))
      × (sp'.cnt_error + (0 + 3) ≤ sp'.packet_count + sp'.outoforder_packets))
count_packets-Accounts_example =
    count_packets-Accounts (5 ∷ 5 ∷ 3 ∷ []) [] stream
      (omega arith, (omega arith, (omega arith, tt))) (omega arith)
      (record {
        highest = tt;
        small = omega arith;
        lost_little = omega arith;
        late_little = omega arith;
        lost_enough = omega arith;
        lost_at_most = omega arith;
      })

send-receive_lossless_example :
    let (sent, count) = send_loop 36 16 true clock (zeros 36) stream.packet_count in
    let sp' = receive_loop whole (length sent) 16 true true clock sent stream in
    (count ≡ stream.packet_count + 2)
    × (sp'.packet_count ≡ count)
    × (sp'.cnt_error ≡ stream.cnt_error)
    × (sp'.outoforder_packets ≡ stream.outoforder_packets)
send-receive_lossless_example =
    send-receive_lossless whole 2 16 4 true true clock clock (zeros 36) stream (omega arith)
      (omega arith) refl (omega arith) clock_in

packet_count-udp_send_example :
    let (sp', r, gso') = udp_send settings broken_write clock stream in
    sp'.packet_count ≡ count_after stream.packet_count 2 r
packet_count-udp_send_example =
    packet_count-udp_send settings broken_write clock stream 2 4 (omega arith)
      (unfold segment_sizes in omega arith) (unfold segment_sizes in omega arith)
      (unfold segment_sizes in refl) (unfold segment_sizes in omega arith) (omega arith) clock_in

receive_loop_fuel_example :
    receive_loop whole (20 + 3) 16 true true clock (zeros 20) stream
    ≡ receive_loop whole 20 16 true true clock (zeros 20) stream
receive_loop_fuel_example =
    receive_loop_fuel whole 20 3 16 true true clock (zeros 20) stream (omega arith) (omega arith)

udp_recv_skip_rx_copy_example : SameCounts (udp_recv whole settings true read clock stream).0 stream
udp_recv_skip_rx_copy_example =
    udp_recv_skip_rx_copy whole settings true read clock stream refl (omega arith)
      (λ n. omega (arith, length-take n (zeros 20)))
