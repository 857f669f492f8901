-- ===== src/Udp/Receive.antt =====
-- `iperf_udp_recv` of iperf_udp.c.
use iperf_swift.Prelude.{
  ℕ, zero, suc, ◌+◌, Bool, false, ◌&&◌, ◌||◌, List, if◌then◌else◌, ltb, leb, ◌==◌, length, drop,
}
use iperf_swift.Prelude.Words.{u64, sub_u64}
use iperf_swift.Prelude.Int.{ℤ, pos, negsuc}
use iperf_swift.Time.{Time, time_diff}
use iperf_swift.Net.{Received, failed, buffer, net_harderror}
use iperf_swift.Udp.{Floats, UdpStream, UdpSettings, is_positive_i64, min_pkt_size}
use iperf_swift.Udp.Header.{read_header}

-- The sequence number of one packet against those seen: a gap is loss, a number that does not go
-- forward is an out-of-order packet and takes back one loss. The comparison is on 64 bits unsigned.
unfoldable pub count_packet : {F : Type 0} → ℕ → UdpStream F → UdpStream F
count_packet pcount sp =
    let next = u64 (sp.packet_count + 1) in
    if leb next pcount
    then record sp {
      cnt_error =
          if ltb next pcount
          then u64 (sp.cnt_error + sub_u64 (sub_u64 pcount 1) sp.packet_count)
          else sp.cnt_error;
      packet_count = pcount;
    }
    else record sp {
      outoforder_packets = u64 (sp.outoforder_packets + 1);
      cnt_error = if is_positive_i64 sp.cnt_error then sub_u64 sp.cnt_error 1 else sp.cnt_error;
    }

-- The jitter of RFC 1889, from the transit times of this packet and the one before. The retry for a
-- reset by another thread between the load and the store is left out.
module _ (fl : Floats) where
  open fl use {F, in_secs, add_f, sub_f, neg_f, div_16, is_neg}

  unfoldable pub measure_jitter : Bool → Time → Time → UdpStream F → UdpStream F
  measure_jitter first_packet arrival_time sent_time sp =
      let transit = in_secs (time_diff arrival_time sent_time).0 in
      let previous = if first_packet then transit else sp.prev_transit in
      let difference = sub_f transit previous in
      let d = if is_neg difference then neg_f difference else difference in
      record sp { prev_transit = transit; jitter = add_f sp.jitter (div_16 (sub_f d sp.jitter)) }

  -- one turn of the loop over the datagrams of the buffer
  unfoldable pub receive_packet : Bool → Bool → Time → List ℕ → UdpStream F → UdpStream F
  receive_packet counters_64bit first_packet arrival_time bytes sp =
      let (sent_time, pcount) = read_header counters_64bit bytes in
      measure_jitter first_packet arrival_time sent_time (count_packet pcount sp)

  -- The loop. `bytes` is what is left of the buffer, `clock` gives the arrival time of each
  -- turn from here on. A turn takes at least a byte, so fuel for every byte is enough.
  unfoldable pub receive_loop :
      ℕ → ℕ → Bool → Bool → (ℕ → Time) → List ℕ → UdpStream F → UdpStream F
  receive_loop zero dgram_sz counters_64bit first_packet clock bytes sp = sp
  receive_loop (suc fuel) dgram_sz counters_64bit first_packet clock bytes sp =
      let rest =
        receive_loop fuel dgram_sz counters_64bit false (λ n. clock (n + 1)) (drop dgram_sz bytes)
          (receive_packet counters_64bit first_packet (clock 0) bytes sp) in
      if ltb (length bytes) dgram_sz
        || ltb (length bytes) min_pkt_size
        || counters_64bit && ltb (length bytes) 16
      then sp
      else rest

  -- The bytes of one read, counted and processed while the test runs.
  unfoldable pub receive_bytes :
      UdpSettings → Bool → (ℕ → Time) → List ℕ → UdpStream F → UdpStream F
  unfolding receive_loop
  receive_bytes settings running clock bytes sp =
      let r = length bytes in
      let counted = record sp {
        bytes_received = u64 (sp.bytes_received + r);
        bytes_received_this_interval = u64 (sp.bytes_received_this_interval + r);
      } in
      if running
      then receive_loop r settings.blksize settings.udp_counters_64bit (sp.bytes_received == 0)
          clock bytes counted
      else sp

  -- the size that is asked for
  unfoldable pub receive_size : UdpSettings → ℕ
  receive_size settings = if settings.skip_rx_copy then 16 else settings.blksize

  -- after the read, which gave `r`
  unfoldable pub receive_result :
      UdpSettings → Bool → (ℕ → Time) → UdpStream F → Received → UdpStream F × ℤ
  unfolding receive_bytes
  receive_result settings running clock sp (failed e) = (sp, e)
  receive_result settings running clock sp (buffer bytes) =
      if length bytes == 0
      then (sp, pos 0)
      else if settings.blksize == 0
      then (sp, negsuc 0)
      else (receive_bytes settings running clock bytes sp, pos (length bytes))

  -- The new stream and the returned `r`. `read` is `Nrecv_no_select` for a size; `Nread_gro` fails
  -- where the system has no UDP_GRO, as the build for Apple systems has not.
  unfoldable pub udp_recv :
      UdpSettings → Bool → (ℕ → Received) → (ℕ → Time) → UdpStream F → UdpStream F × ℤ
  unfolding receive_result receive_size
  udp_recv settings running read clock sp =
      receive_result settings running clock sp
        (if settings.gro then failed net_harderror else read (receive_size settings))
