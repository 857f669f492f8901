-- ===== src/Udp/Send.antt =====
-- `iperf_udp_send` of iperf_udp.c.
use iperf_swift.Prelude.{
  ℕ, zero, suc, ◌+◌, Bool, true, false, ◌||◌, List, ◌++◌, if◌then◌else◌, ltb, ◌==◌, length, take,
  drop,
}
use iperf_swift.Prelude.Words.{u64, sub_u64}
use iperf_swift.Prelude.Int.{ℤ, pos, negsuc}
use iperf_swift.Time.{Time}
use iperf_swift.Udp.{UdpStream, UdpSettings, min_pkt_size}
use iperf_swift.Udp.Header.{write_header}

-- The loop that puts a header on every datagram of the buffer; `buf` is the buffer from `dgram_buf`
-- on, `clock` gives the time of each turn. The result is the buffer and the packet count. A turn
-- takes at least a byte, so fuel for every byte is enough.
unfoldable pub send_loop : ℕ → ℕ → Bool → (ℕ → Time) → List ℕ → ℕ → List ℕ × ℕ
send_loop zero dgram_sz counters_64bit clock buf packet_count = (buf, packet_count)
send_loop (suc fuel) dgram_sz counters_64bit clock buf packet_count =
    let count = u64 (packet_count + 1) in
    let header = write_header counters_64bit (clock 0) count in
    let written = header ++ drop (length header) buf in
    let rest =
      send_loop fuel dgram_sz counters_64bit (λ n. clock (n + 1)) (drop dgram_sz written) count in
    let turn : List ℕ × ℕ = (take dgram_sz written ++ rest.0, rest.1) in
    if length buf == 0 || ltb (length buf) dgram_sz then (buf, packet_count) else turn

-- `dgram_sz` and `buf_sz`, and whether segmentation stays on
unfoldable pub segment_sizes : UdpSettings → ℕ × ℕ × Bool
segment_sizes settings =
    if settings.gso
    then if settings.gso_dg_size == 0
        || ltb settings.gso_dg_size min_pkt_size
        || ltb settings.gso_bf_size settings.gso_dg_size
      then (settings.blksize, settings.blksize, false)
      else (settings.gso_dg_size, settings.gso_bf_size, true)
    else (settings.blksize, settings.blksize, false)

-- after the write, which returned `r`
unfoldable pub send_finish : {F : Type 0} → ℤ → UdpStream F → UdpStream F
send_finish (negsuc e) sp = record sp { packet_count = sub_u64 sp.packet_count 1 }
send_finish (pos zero) sp = record sp { packet_count = sub_u64 sp.packet_count 1 }
send_finish (pos (suc r)) sp = record sp {
  bytes_sent = u64 (sp.bytes_sent + suc r);
  bytes_sent_this_interval = u64 (sp.bytes_sent_this_interval + suc r);
}

-- The new stream, the returned value and the `gso` setting left. `write` is `Nwrite`, or
-- `Nwrite_gso` with segmentation, of the first bytes of the buffer.
unfoldable pub udp_send :
    {F : Type 0} → UdpSettings → (List ℕ → ℤ) → (ℕ → Time) → UdpStream F → UdpStream F × ℤ × Bool
unfolding segment_sizes send_finish
udp_send settings write clock sp =
    let (dgram_sz, buf_sz, gso) = segment_sizes settings in
    let (sent, count) =
      send_loop buf_sz dgram_sz settings.udp_counters_64bit clock (take buf_sz sp.send_buffer)
        sp.packet_count in
    let filled = record sp {
      packet_count = count;
      send_buffer = sent ++ drop buf_sz sp.send_buffer;
    } in
    let r =
      write (take (if gso then settings.gso_bf_size else settings.blksize) filled.send_buffer) in
    (send_finish r filled, r, gso)
