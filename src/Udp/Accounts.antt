-- ===== src/Udp/Accounts.antt =====
-- The loss accounting of `iperf_udp_recv` (iperf_udp.c) over the packets of a whole test.
use iperf_swift.Prelude.{ℕ, ◌+◌, ◌≤◌, ◌<◌, ◌^◌, List, [], ◌∷◌, length, arith}
use native.Mathlib.Nat.{le_trans}
use iperf_swift.Udp.{UdpStream}
use iperf_swift.Udp.Receive.{count_packet}

-- the packets of a test, in the order of their arrival
unfoldable pub count_packets : {F : Type 0} → List ℕ → UdpStream F → UdpStream F
count_packets [] sp = sp
count_packets (pcount ∷ rest) sp = count_packets rest (count_packet pcount sp)

-- every number of a list satisfies `P`
abbrev pub Each {κ} : (ℕ → Type κ) → List ℕ → Type κ
Each P [] = Unit
Each P (x ∷ xs) = P x × Each P xs

pub Each-map {κ} : {P Q : ℕ → Type κ} (xs : List ℕ) → ((x : ℕ) → P x → Q x) → Each P xs → Each Q xs
Each-map [] f h = tt
Each-map (x ∷ xs) f h = (f x h.0, Each-map xs f h.1)

-- The accounts after the packets `seen`, latest first.
pub record Accounts {F : Type 0} (seen : List ℕ) (sp : UdpStream F) : Type 0 where
  pub highest : Each (λ n. n ≤ sp.packet_count) seen
  pub small : sp.packet_count < 2 ^ 63
  pub lost_little : sp.cnt_error ≤ sp.packet_count
  pub late_little : sp.outoforder_packets ≤ length seen
  pub lost_enough : sp.packet_count ≤ sp.cnt_error + length seen
  pub lost_at_most : sp.cnt_error + length seen ≤ sp.packet_count + sp.outoforder_packets

module _ {F : Type 0} (pcount : ℕ) (sp : UdpStream F) (p : pcount < 2 ^ 63)
    (s : sp.packet_count < 2 ^ 63) where
  -- The highest number seen never falls, and covers the new packet.
  pub packet_count-count_packet :
      (sp.packet_count ≤ (count_packet pcount sp).packet_count)
      × (pcount ≤ (count_packet pcount sp).packet_count)
      × ((count_packet pcount sp).packet_count < 2 ^ 63)
  unfolding count_packet
  packet_count-count_packet = ground arith

  pub count_packet-Accounts :
      (seen : List ℕ)
      → length seen + 1 < 2 ^ 63
      → Accounts seen sp
      → Accounts (pcount ∷ seen) (count_packet pcount sp)
  unfolding count_packet
  count_packet-Accounts seen few a =
      let up = packet_count-count_packet in
      record {
        highest = (up.1, Each-map seen (λ x h. le_trans h up.0) a.highest);
        small = up.2;
        lost_little = ground arith;
        late_little = ground arith;
        lost_enough = ground arith;
        lost_at_most = ground arith;
      }
