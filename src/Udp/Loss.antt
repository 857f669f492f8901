-- ===== src/Udp/Loss.antt =====
-- Loss without duplicates (iperf_udp.c): the counters tell exactly how many packets are missing.
use iperf_swift.Prelude.{
  ℕ, zero, suc, ◌+◌, ◌≤◌, ◌<◌, ◌^◌, ◌≡◌, ◌≢◌, refl, List, [], ◌∷◌, length, arith, if◌then◌else◌,
  ◌==◌, Bool-cases, inl, inr, max, ap, sym, ◌∙◌,
}
use iperf_swift.Udp.{UdpStream}
use iperf_swift.Udp.Receive.{count_packet}
use iperf_swift.Udp.Accounts.{
  count_packets, Each, Each-map, Accounts, count_packet-Accounts, packet_count-count_packet,
}

-- no number twice
abbrev pub Distinct : List ℕ → Type 0
Distinct [] = Unit
Distinct (x ∷ xs) = Each (λ y. x ≢ y) xs × Distinct xs

-- without the first `n`
without : ℕ → List ℕ → List ℕ
without n [] = []
without n (x ∷ xs) = if x == n then xs else x ∷ without n xs

length-without : (n : ℕ) (xs : List ℕ) → length xs ≤ length (without n xs) + 1
unfolding without
length-without n [] = omega arith
length-without n (x ∷ xs) = ground (arith, length-without n xs)

Each-without {κ} : (P : ℕ → Type κ) (n : ℕ) (xs : List ℕ) → Each P xs → Each P (without n xs)
unfolding without
Each-without P n [] h = tt
Each-without P n (x ∷ xs) h = elim (Bool-cases (x == n)) [
  | inl e ↦ rw e h.1
  | inr e ↦ rw e (h.0, Each-without P n xs h.1)
]

Distinct-without : (n : ℕ) (xs : List ℕ) → Distinct xs → Distinct (without n xs)
unfolding without
Distinct-without n [] d = tt
Distinct-without n (x ∷ xs) d = elim (Bool-cases (x == n)) [
  | inl e ↦ rw e d.1
  | inr e ↦ rw e (Each-without (λ y. x ≢ y) n xs d.0, Distinct-without n xs d.1)
]

-- a list without duplicates has no `n` left
without-ne : (n : ℕ) (xs : List ℕ) → Distinct xs → Each (λ y. y ≢ n) (without n xs)
unfolding without
without-ne n [] d = tt
without-ne n (x ∷ xs) d = elim (Bool-cases (x == n)) [
  | inl e ↦ rw e (Each-map xs (λ y (h : x ≢ y). ground arith) d.0)
  | inr e ↦ rw e (ground arith, without-ne n xs d.1)
]

Each-both {κ} :
    {P Q R : ℕ → Type κ} (xs : List ℕ)
    → ((x : ℕ) → P x → Q x → R x)
    → Each P xs
    → Each Q xs
    → Each R xs
Each-both [] f h k = tt
Each-both (x ∷ xs) f h k = (f x h.0 k.0, Each-both xs f h.1 k.1)

-- Different numbers from 1 to `m` are at most `m`.
pub length-le_of_Distinct :
    (m : ℕ) (xs : List ℕ) → Distinct xs → Each (λ n. (1 ≤ n) × (n ≤ m)) xs → length xs ≤ m
length-le_of_Distinct m [] d h = omega arith
length-le_of_Distinct zero (x ∷ xs) d h = absurd (omega arith)
length-le_of_Distinct (suc m) xs d h = omega (
  arith,
  length-without (suc m) xs,
  length-le_of_Distinct m (without (suc m) xs) (Distinct-without (suc m) xs d) (
      Each-both (without (suc m) xs) (λ n (r : (1 ≤ n) × (n ≤ suc m)) (ne : n ≢ suc m). omega arith)
        (Each-without (λ n. (1 ≤ n) × (n ≤ suc m)) (suc m) xs h) (without-ne (suc m) xs d)),
)

-- The accounts when no packet came twice.
pub record Exact {F : Type 0} (seen : List ℕ) (sp : UdpStream F) : Type 0 where
  pub positive : Each (λ n. 1 ≤ n) seen
  pub distinct : Distinct seen
  pub accounts : Accounts seen sp
  pub exact : sp.cnt_error + length seen ≡ sp.packet_count

module _ {F : Type 0} where
  pub count_packet-Exact :
      (pcount : ℕ) (seen : List ℕ) (sp : UdpStream F)
      → 1 ≤ pcount
      → pcount < 2 ^ 63
      → length seen + 1 < 2 ^ 63
      → Each (λ y. pcount ≢ y) seen
      → Exact seen sp
      → Exact (pcount ∷ seen) (count_packet pcount sp)
  unfolding count_packet
  count_packet-Exact pcount seen sp one p few fresh e =
      let a = e.accounts in
      let up = packet_count-count_packet pcount sp p a.small in
      let room : pcount ≤ sp.packet_count → suc (length seen) ≤ sp.packet_count = λ h.
        length-le_of_Distinct sp.packet_count (pcount ∷ seen) (fresh, e.distinct)
          (
            (one, h),
            Each-both seen (λ n (x : 1 ≤ n) (y : n ≤ sp.packet_count). (x, y)) e.positive a.highest,
          ) in
      record {
        positive = (one, e.positive);
        distinct = (fresh, e.distinct);
        accounts = count_packet-Accounts pcount sp p a.small seen few a;
        exact = ground (arith, room);
      }

-- the highest of the numbers and `n`
abbrev pub highest_from : ℕ → List ℕ → ℕ
highest_from n [] = n
highest_from n (x ∷ xs) = highest_from (max n x) xs

packet_count-count_packets :
    {F : Type 0} (packets : List ℕ) (sp : UdpStream F)
    → sp.packet_count < 2 ^ 63
    → Each (λ n. n < 2 ^ 63) packets
    → (count_packets packets sp).packet_count ≡ highest_from sp.packet_count packets
unfolding count_packets count_packet
packet_count-count_packets [] sp s small = refl
packet_count-count_packets (x ∷ xs) sp s small =
    packet_count-count_packets xs (count_packet x sp) (ground arith) small.1
    ∙ ap (λ n. highest_from n xs) (ground arith)

-- Numbers that are not among those seen.
abbrev Fresh : List ℕ → List ℕ → Type 0
Fresh seen packets = Each (λ x. Each (λ y. x ≢ y) seen) packets

Fresh-cons :
    (x : ℕ) (seen packets : List ℕ)
    → Each (λ y. x ≢ y) packets
    → Fresh seen packets
    → Fresh (x ∷ seen) packets
Fresh-cons x seen packets d f =
    Each-both packets (λ y (ne : x ≢ y) (old : Each (λ z. y ≢ z) seen). ((λ e. ne (sym e)), old)) d
      f

count_packets-Exact :
    {F : Type 0} (packets seen : List ℕ) (sp : UdpStream F)
    → Distinct packets
    → Each (λ n. (1 ≤ n) × (n < 2 ^ 63)) packets
    → length seen + length packets < 2 ^ 63
    → Fresh seen packets
    → Exact seen sp
    → (count_packets packets sp).cnt_error + (length seen + length packets)
      ≡ (count_packets packets sp).packet_count
unfolding count_packets
count_packets-Exact [] seen sp d r few f e = omega (arith, e.exact)
count_packets-Exact (x ∷ xs) seen sp d r few f e =
    let next = count_packet-Exact x seen sp r.0.0 r.0.1 (omega arith) f.0 e in
    omega (
      arith,
      count_packets-Exact xs (x ∷ seen) (count_packet x sp) d.1 r.1 (omega arith)
          (Fresh-cons x seen xs d.0 f.1) next,
    )

Fresh-nil : (packets : List ℕ) → Fresh [] packets
Fresh-nil [] = tt
Fresh-nil (x ∷ xs) = (tt, Fresh-nil xs)

Each-below :
    (packets : List ℕ) → Each (λ n. (1 ≤ n) × (n < 2 ^ 63)) packets → Each (λ n. n < 2 ^ 63) packets
Each-below packets r = Each-map packets (λ x (h : (1 ≤ x) × (x < 2 ^ 63)). h.1) r

-- A stream with no packet counted, that receives packets numbered from 1 in any order and none
-- twice, ends with the highest number as its packet count, and with exactly the missing numbers up
-- to it counted as lost.
pub count_packets_lost :
    {F : Type 0} (packets : List ℕ) (sp : UdpStream F)
    → sp.packet_count ≡ 0
    → sp.cnt_error ≡ 0
    → sp.outoforder_packets ≡ 0
    → Distinct packets
    → Each (λ n. (1 ≤ n) × (n < 2 ^ 63)) packets
    → length packets < 2 ^ 63
    → ((count_packets packets sp).packet_count ≡ highest_from 0 packets)
      × ((count_packets packets sp).cnt_error + length packets ≡ highest_from 0 packets)
count_packets_lost packets sp none_seen none_lost none_late d r few =
    let top =
      packet_count-count_packets packets sp (omega arith) (Each-below packets r)
      ∙ ap (λ n. highest_from n packets) none_seen in
    let empty : Exact [] sp = record {
      positive = tt;
      distinct = tt;
      accounts = record {
        highest = tt;
        small = omega arith;
        lost_little = omega arith;
        late_little = omega arith;
        lost_enough = omega arith;
        lost_at_most = omega arith;
      };
      exact = omega arith;
    } in
    (
      top,
      omega (
        arith,
        count_packets-Exact packets [] sp d r (omega arith) (Fresh-nil packets) empty,
        top,
      ),
    )
