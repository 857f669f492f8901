-- ===== src/Params/Meet.antt =====
-- The server's test is the client's: the exchange of the parameters as a whole.
use iperf_swift.Prelude.{
  ℕ, ◌<◌, ◌^◌, not, Bool, true, false, ◌≡◌, ◌≢◌, ◌∙◌, refl, sym, ap, subst, Option, none, some,
  List, if◌then◌else◌, ◌==◌, arith,
}
use iperf_swift.Prelude.Words.{u64}
use iperf_swift.Prelude.Int.{ℤ, negsuc, pos}
use iperf_swift.Output.Root.{same_key}
use iperf_swift.Params.{
  sctp, is_udp, sender, receiver, bidirectional_mode, IperfTest, Features, i32,
}
use iperf_swift.Params.Receive.{
  Run, on_test, has_flag, read_protocol, derive_gso, note_sender, check_limits, check_test,
  read_test, get_parameters, is_bad_block, is_bad_udp_block, test_steps, gso_steps, rate_steps,
  text_steps, take_steps,
}
use iperf_swift.Params.Send.{
  Cjson, CjsonLaws, all_entries, exact_entries, is_given, or_empty, find_entry, add_entries,
}
use iperf_swift.Params.Round.{built-finds}
use iperf_swift.Params.Takes.{update_all, TakesAll-run}
use iperf_swift.Params.Fresh.{
  fresh_server, begun, with_protocol, protocol-is, derive_gso-off, gso-is_off, sent-block,
  limits-pass, test-passes,
}
use iperf_swift.Params.Sendable.{as_doubles-exact, IsSendable}
use iperf_swift.Params.Agree.{
  j, test_updates, gso_updates, rate_updates, text_updates, test-TakesAll, gso-TakesAll,
  rate-TakesAll, text-TakesAll,
}

module _ (version : List ℕ) (token : Option (List ℕ)) (c : IperfTest) (sys : Features) where
  sent-protocol :
      c.protocol ≢ sctp
      → read_protocol sys (j version token c sys) begun
        ≡ record begun { test = with_protocol c.protocol }
  unfolding has_flag find_entry same_key
  sent-protocol has =
      protocol-is sys (j version token c sys) c.protocol (ground arith) (ground arith)
        (ground arith) has

  -- the test after "len" and the sizes of datagrams, and after the rest
  abbrev sized : IsSendable c → IperfTest
  sized fits =
      update_all (gso_updates version token c sys fits)
        (update_all (test_updates version token c sys fits) (with_protocol c.protocol))

  abbrev agreed : IsSendable c → IperfTest
  agreed fits = note_sender sys (
      update_all (text_updates version token c sys fits)
        (update_all (rate_updates version token c sys fits) (sized fits)))

  sized-derive : (fits : IsSendable c) → derive_gso (sized fits) ≡ sized fits
  unfolding derive_gso
  sized-derive fits = derive_gso-off (sized fits) (gso-is_off (is_udp c.protocol))

  read_test-agreed :
      (fits : IsSendable c)
      → read_test sys (j version token c sys) begun ≡ record begun { test = agreed fits }
  unfolding read_test
  read_test-agreed fits =
      let l = j version token c sys in
      let tests = test_updates version token c sys fits in
      let sizes = gso_updates version token c sys fits in
      let rates = rate_updates version token c sys fits in
      let texts = text_updates version token c sys fits in
      let started : Run = record begun { test = with_protocol c.protocol } in
      let tested : Run = on_test (update_all tests) started in
      let rated : Run = on_test (update_all rates) (record begun { test = sized fits }) in
      let after_tests =
        ap (take_steps l (test_steps sys)) (sent-protocol fits.no_sctp)
        ∙ TakesAll-run l tests started (test-TakesAll version token c sys fits) in
      let after_sizes =
        ap (take_steps l gso_steps) after_tests
        ∙ TakesAll-run l sizes tested (gso-TakesAll version token c sys fits) in
      let after_derive =
        ap (on_test derive_gso) after_sizes
        ∙ ap (λ t. record begun { test = t }) (sized-derive fits) in
      let after_rates =
        ap (take_steps l rate_steps) after_derive
        ∙ TakesAll-run l rates (record begun { test = sized fits })
            (rate-TakesAll version token c sys fits) in
      let after_texts =
        ap (take_steps l text_steps) after_rates
        ∙ TakesAll-run l texts rated (text-TakesAll version token c sys fits) in
      ap (on_test (note_sender sys)) after_texts

  agreed-block :
      (fits : IsSendable c)
      → is_bad_block c.protocol (pos fits.block) ≡ false
      → is_bad_udp_block c.protocol (pos fits.block) ≡ false
      → (agreed fits).settings.blksize ≡ pos fits.block
  unfolding note_sender
  agreed-block fits block udp_block =
      sent-block c.protocol fits.block block udp_block fits.small_block

  check-agreed :
      (fits : IsSendable c)
      → is_bad_block c.protocol (pos fits.block) ≡ false
      → is_bad_udp_block c.protocol (pos fits.block) ≡ false
      → sys.sendfile ≡ true
      → check_test sys (record begun { test = agreed fits }) ≡ record begun { test = agreed fits }
  unfolding check_test check_limits note_sender
  check-agreed fits block udp_block sendfile =
      let size = agreed-block fits block udp_block in
      test-passes sys (agreed fits) (ap (is_bad_block c.protocol) size ∙ block)
        (ap (is_bad_udp_block c.protocol) size ∙ udp_block)
        (limits-pass sys (agreed fits) refl refl (gso-is_off (is_udp c.protocol)) sendfile)

-- A client with a pacing timer of 0 does not send it, and the server keeps its own.
abbrev agreed_pacing : ℤ → ℤ
agreed_pacing (pos n) = if n == 0 then pos 1000 else pos n
agreed_pacing (negsuc n) = negsuc n

-- what the two sides agree on
abbrev pub Agrees : Option (List ℕ) → IperfTest → IperfTest → Type 0
Agrees token c t =
    (t.protocol ≡ c.protocol)
    × (t.mode
        ≡ (if c.bidirectional then bidirectional_mode else if c.reverse then sender else receiver))
    × (t.omit ≡ c.omit)
    × (t.duration ≡ c.duration)
    × (t.num_streams ≡ c.num_streams)
    × (t.no_delay ≡ c.no_delay)
    × (t.zerocopy ≡ c.zerocopy)
    × (t.get_server_output ≡ c.get_server_output)
    × (t.udp_counters_64bit ≡ c.udp_counters_64bit)
    × (t.repeating_payload ≡ c.repeating_payload)
    × (t.title ≡ c.title)
    × (t.extra_data ≡ c.extra_data)
    × (t.congestion ≡ c.congestion)
    × (t.settings.bytes ≡ c.settings.bytes)
    × (t.settings.blocks ≡ c.settings.blocks)
    × (t.settings.mss ≡ c.settings.mss)
    × (t.settings.socket_bufsize ≡ c.settings.socket_bufsize)
    × (t.settings.blksize ≡ c.settings.blksize)
    × (t.settings.rate ≡ c.settings.rate)
    × (t.settings.fqrate ≡ c.settings.fqrate)
    × (t.settings.pacing_timer ≡ agreed_pacing c.settings.pacing_timer)
    × (t.settings.burst ≡ c.settings.burst)
    × (t.settings.tos ≡ c.settings.tos)
    × (t.settings.dont_fragment ≡ c.settings.dont_fragment)
    × (t.settings.skip_rx_copy ≡ c.settings.skip_rx_copy)
    × (t.settings.authtoken ≡ token)

flag_is : (b : Bool) → (if b then true else false) ≡ b
flag_is true = refl
flag_is false = refl

text_is : (w : Option (List ℕ)) → (if is_given w then some (or_empty w) else none) ≡ w
text_is none = refl
text_is (some w) = refl

number_is : (n : ℕ) → (if not (n == 0) then n else 0) ≡ n
number_is n = ground arith

wide_number_is : (n : ℕ) → n < 2 ^ 53 → (if not (n == 0) then u64 n else 0) ≡ n
wide_number_is n fits = ground arith

pacing_is :
    (n : ℕ)
    → n < 2 ^ 31
    → (if not (n == 0) then i32 n else pos 1000) ≡ (if n == 0 then pos 1000 else pos n)
pacing_is n fits = ground arith

agreed-Agrees :
    (version : List ℕ) (token : Option (List ℕ)) (c : IperfTest) (sys : Features)
    (fits : IsSendable c)
    → is_bad_block c.protocol (pos fits.block) ≡ false
    → is_bad_udp_block c.protocol (pos fits.block) ≡ false
    → Agrees token c (agreed version token c sys fits)
unfolding note_sender
agreed-Agrees version token c sys fits block udp_block =
    let s = c.settings in
    (
      refl,
      refl,
      refl,
      refl,
      refl,
      flag_is c.no_delay,
      flag_is c.zerocopy,
      flag_is c.get_server_output,
      flag_is c.udp_counters_64bit,
      flag_is c.repeating_payload,
      text_is c.title,
      text_is c.extra_data,
      text_is c.congestion,
      ground arith,
      ground arith,
      number_is s.mss,
      number_is s.socket_bufsize,
      agreed-block version token c sys fits block udp_block ∙ sym fits.is_block,
      wide_number_is s.rate fits.rate_fits,
      wide_number_is s.fqrate fits.fqrate_fits,
      pacing_is fits.pacing fits.small_pacing ∙ ap agreed_pacing (sym fits.is_pacing),
      number_is s.burst,
      number_is s.tos,
      flag_is s.dont_fragment,
      flag_is s.skip_rx_copy,
      text_is token,
    )

-- A client and a server whose exchange of parameters goes through agree on the test. The client's
-- test is one that its command line accepts, with 64-bit numbers below 2^53, over TCP or UDP with a
-- block size for its protocol, no segmentation of datagrams and no affinity; the server has no limits,
-- is before its first test and, if the test needs it, has `sendfile`. cJSON keeps its laws, and the
-- object arrives as it was sent. Then `get_parameters` accepts it, with all that the client set, and
-- the mode opposite to the client's; only a pacing timer of 0 becomes the server's own, 1000.
pub get_parameters-Agrees :
    (j : Cjson) (laws : CjsonLaws j) (version : List ℕ) (token : Option (List ℕ)) (c : IperfTest)
    (sys : Features) (fits : IsSendable c)
    → is_bad_block c.protocol (pos fits.block) ≡ false
    → is_bad_udp_block c.protocol (pos fits.block) ≡ false
    → sys.sendfile ≡ true
    → let o = add_entries j (all_entries version token c) j.create in
      let run = get_parameters sys (some (j.get_object_item o)) fresh_server in
      (run.failed ≡ false) × Agrees token c run.test
unfolding get_parameters all_entries
get_parameters-Agrees cj laws version token c sys fits block udp_block sendfile =
    let arrives =
      ap (λ l. check_test sys (read_test sys l begun))
        (built-finds cj laws version token c
          ∙ ap (λ t. find_entry (exact_entries version token t)) (as_doubles-exact c fits))
      ∙ (ap (check_test sys) (read_test-agreed version token c sys fits)
          ∙ check-agreed version token c sys fits block udp_block sendfile) in
    (
      ap (λ run. run.failed) arrives,
      subst (λ (run : Run). Agrees token c run.test) (sym arrives)
          (agreed-Agrees version token c sys fits block udp_block),
    )
