-- ===== src/Params/Agree.antt =====
-- The server's test is the client's: what `get_parameters` makes of the object of `send_parameters`.
use iperf_swift.Prelude.{
  codes, ℕ, ◌==◌, not, true, false, ◌≡◌, refl, Option, none, some, List, [], ◌∷◌, if◌then◌else◌,
  arith,
}
use iperf_swift.Prelude.Words.{u64}
use iperf_swift.Prelude.Int.{pos}
use iperf_swift.Output.Root.{same_key}
use iperf_swift.Params.{is_udp, IperfTest, Features, i32}
use iperf_swift.Params.Receive.{
  Lookup, Step, on_settings, get_number, has_flag, get_string, test_steps, gso_steps, rate_steps,
  text_steps,
}
use iperf_swift.Params.Send.{is_given, or_empty, exact_entries, find_entry}
use iperf_swift.Params.Takes.{
  TakesAll, reset-Takes, number-Takes, number_flag-Takes, flag-Takes, text-Takes,
}
use iperf_swift.Params.Sendable.{
  IsSendable, reverse_update, reverse_update-is, bidirectional_update, bidirectional_update-is,
  pair_with, text_found,
}

module _ (version : List ℕ) (token : Option (List ℕ)) (c : IperfTest) (sys : Features) where
  abbrev pub j : Lookup
  j = find_entry (exact_entries version token c)

  abbrev pub test_updates : IsSendable c → List (Step × (IperfTest → IperfTest))
  test_updates fits = pair_with (test_steps sys) (
      ((λ t. record t { omit = c.omit }))
      ∷ ((λ t. t))
      ∷ ((λ t. record t { duration = c.duration }))
      ∷ ((on_settings (λ s. record s { bytes = 0 })))
      ∷ ((on_settings (λ s. record s { bytes = u64 (c.settings.bytes) })))
      ∷ ((on_settings (λ s. record s { blocks = 0 })))
      ∷ ((on_settings (λ s. record s { blocks = u64 (c.settings.blocks) })))
      ∷ ((on_settings
          (λ s. record s { mss = if not (c.settings.mss == 0) then c.settings.mss else s.mss })))
      ∷ ((λ t. record t { no_delay = if c.no_delay then true else t.no_delay }))
      ∷ ((λ t. record t { num_streams = c.num_streams }))
      ∷ ((reverse_update sys c.reverse))
      ∷ ((bidirectional_update c.bidirectional))
      ∷ ((on_settings (λ s. record s {
        socket_bufsize =
            if not (c.settings.socket_bufsize == 0)
            then c.settings.socket_bufsize
            else s.socket_bufsize;
      })))
      ∷ ((on_settings (λ s. record s {
        blksize = if not (fits.block == 0) then i32 (fits.block) else s.blksize;
      })))
      ∷ [])

  pub test-TakesAll : (fits : IsSendable c) → TakesAll j (test_updates fits)
  unfolding get_number get_string has_flag find_entry same_key
  test-TakesAll fits =
      let no_affinity = fits.no_affinity in
      let is_block = fits.is_block in
      let small = fits.small_block in
      let unset : get_number j (codes "server_affinity") ≡ none = rw no_affinity in
      let block : get_number j (codes "len")
          ≡ (if not (fits.block == 0) then some (pos fits.block) else none) =
        rw is_block (ground arith) in
      (
        number-Takes j _ _ _ _ _ true (pos (c.omit)) (c.omit) refl (λ given. ground arith)
            (λ t. refl),
        (
          number-Takes j _ _ _ _ _ false (pos 0) 0 unset (λ given. absurd (ground arith))
              (λ t. refl),
          (
            number-Takes j _ _ _ _ _ true (pos (c.duration)) (c.duration) refl
                (λ given. ground arith) (λ t. refl),
            (
              reset-Takes j _,
              (
                number-Takes j _ _ _ _ _ true (pos (c.settings.bytes)) (c.settings.bytes) refl
                    (λ given. ground arith) (λ t. refl),
                (
                  reset-Takes j _,
                  (
                    number-Takes j _ _ _ _ _ true (pos (c.settings.blocks)) (c.settings.blocks) refl
                        (λ given. ground arith) (λ t. refl),
                    (
                      number-Takes j _ _ _ _ _ (not (c.settings.mss == 0)) (pos c.settings.mss)
                          (c.settings.mss) (ground arith) (λ given. ground arith)
                          (λ t. ground arith),
                      (
                        flag-Takes j _ _ _ c.no_delay (ground arith) (λ t. ground arith),
                        (
                          number-Takes j _ _ _ _ _ true (pos (c.num_streams)) (c.num_streams) refl
                              (λ given. ground arith) (λ t. refl),
                          (
                            flag-Takes j _ _ _ c.reverse (ground arith)
                                (λ t. reverse_update-is sys c.reverse t),
                            (
                              flag-Takes j _ _ _ c.bidirectional (ground arith)
                                  (λ t. bidirectional_update-is sys c.bidirectional t),
                              (
                                number-Takes j _ _ _ _ _ (not (c.settings.socket_bufsize == 0))
                                    (pos c.settings.socket_bufsize) (c.settings.socket_bufsize)
                                    (ground arith) (λ given. ground arith) (λ t. ground arith),
                                (
                                  number-Takes j _ _ _ _ _ (not (fits.block == 0)) (pos fits.block)
                                      (fits.block) (block) (λ given. ground arith)
                                      (λ t. ground arith),
                                  tt,
                                ),
                              ),
                            ),
                          ),
                        ),
                      ),
                    ),
                  ),
                ),
              ),
            ),
          ),
        ),
      )

  abbrev pub gso_updates : IsSendable c → List (Step × (IperfTest → IperfTest))
  gso_updates fits = pair_with (gso_steps) (
      ((on_settings (λ s. record s { gso = if is_udp c.protocol then i32 (0) else s.gso })))
      ∷ ((on_settings (λ s. record s {
        gso_dg_size = if is_udp c.protocol then i32 (fits.dg_size) else s.gso_dg_size;
      })))
      ∷ ((on_settings (λ s. record s {
        gso_bf_size = if is_udp c.protocol then i32 (fits.bf_size) else s.gso_bf_size;
      })))
      ∷ [])

  pub gso-TakesAll : (fits : IsSendable c) → TakesAll j (gso_updates fits)
  unfolding get_number get_string has_flag find_entry same_key
  gso-TakesAll fits =
      let gso : get_number j (codes "gso") ≡ (if is_udp c.protocol then some (pos 0) else none) =
        rw fits.gso_off (ground arith) in
      let dg : get_number j (codes "gso_dg_size")
          ≡ (if is_udp c.protocol then some (pos fits.dg_size) else none) =
        rw fits.is_dg (ground arith) in
      let bf : get_number j (codes "gso_bf_size")
          ≡ (if is_udp c.protocol then some (pos fits.bf_size) else none) =
        rw fits.is_bf (ground arith) in
      (
        number-Takes j _ _ _ _ _ (is_udp c.protocol) (pos 0) (0) (gso) (λ given. ground arith)
            (λ t. ground arith),
        (
          number-Takes j _ _ _ _ _ (is_udp c.protocol) (pos fits.dg_size) (fits.dg_size) (dg)
              (λ given. ground arith) (λ t. ground arith),
          (
            number-Takes j _ _ _ _ _ (is_udp c.protocol) (pos fits.bf_size) (fits.bf_size) (bf)
                (λ given. ground arith) (λ t. ground arith),
            tt,
          ),
        ),
      )

  abbrev pub rate_updates : IsSendable c → List (Step × (IperfTest → IperfTest))
  rate_updates fits = pair_with (rate_steps) (
      ((on_settings (λ s. record s { gro = if is_udp c.protocol then c.settings.gro else s.gro })))
      ∷ ((on_settings (λ s. record s {
        gro_bf_size = if is_udp c.protocol then i32 (fits.gro_size) else s.gro_bf_size;
      })))
      ∷ ((on_settings (λ s. record s {
        rate = if not (c.settings.rate == 0) then u64 (c.settings.rate) else s.rate;
      })))
      ∷ ((on_settings (λ s. record s {
        fqrate = if not (c.settings.fqrate == 0) then u64 (c.settings.fqrate) else s.fqrate;
      })))
      ∷ ((on_settings (λ s. record s {
        pacing_timer = if not (fits.pacing == 0) then i32 (fits.pacing) else s.pacing_timer;
      })))
      ∷ ((on_settings (λ s. record s {
        burst = if not (c.settings.burst == 0) then c.settings.burst else s.burst;
      })))
      ∷ ((on_settings
          (λ s. record s { tos = if not (c.settings.tos == 0) then c.settings.tos else s.tos })))
      ∷ [])

  pub rate-TakesAll : (fits : IsSendable c) → TakesAll j (rate_updates fits)
  unfolding get_number get_string has_flag find_entry same_key
  rate-TakesAll fits =
      let gro : get_number j (codes "gro_bf_size")
          ≡ (if is_udp c.protocol then some (pos fits.gro_size) else none) =
        rw fits.is_gro (ground arith) in
      let pacing : get_number j (codes "pacing_timer")
          ≡ (if not (fits.pacing == 0) then some (pos fits.pacing) else none) =
        rw fits.is_pacing (ground arith) in
      (
        number-Takes j _ _ _ _ _ (is_udp c.protocol) (pos c.settings.gro) (c.settings.gro)
            (ground arith) (λ given. ground arith) (λ t. ground arith),
        (
          number-Takes j _ _ _ _ _ (is_udp c.protocol) (pos fits.gro_size) (fits.gro_size) (gro)
              (λ given. ground arith) (λ t. ground arith),
          (
            number-Takes j _ _ _ _ _ (not (c.settings.rate == 0)) (pos c.settings.rate)
                (c.settings.rate) (ground arith) (λ given. ground arith) (λ t. ground arith),
            (
              number-Takes j _ _ _ _ _ (not (c.settings.fqrate == 0)) (pos c.settings.fqrate)
                  (c.settings.fqrate) (ground arith) (λ given. ground arith) (λ t. ground arith),
              (
                number-Takes j _ _ _ _ _ (not (fits.pacing == 0)) (pos fits.pacing) (fits.pacing)
                    (pacing) (λ given. ground arith) (λ t. ground arith),
                (
                  number-Takes j _ _ _ _ _ (not (c.settings.burst == 0)) (pos c.settings.burst)
                      (c.settings.burst) (ground arith) (λ given. ground arith) (λ t. ground arith),
                  (
                    number-Takes j _ _ _ _ _ (not (c.settings.tos == 0)) (pos c.settings.tos)
                        (c.settings.tos) (ground arith) (λ given. ground arith) (λ t. ground arith),
                    tt,
                  ),
                ),
              ),
            ),
          ),
        ),
      )

  abbrev pub text_updates : IsSendable c → List (Step × (IperfTest → IperfTest))
  text_updates fits = pair_with (text_steps) (
      ((λ t. record t { title = if is_given c.title then some (or_empty c.title) else t.title }))
      ∷ ((λ t. record t {
        extra_data = if is_given c.extra_data then some (or_empty c.extra_data) else t.extra_data;
      }))
      ∷ ((λ t. record t {
        congestion = if is_given c.congestion then some (or_empty c.congestion) else t.congestion;
      }))
      ∷ ((λ t. record t {
        congestion_used =
            if is_given c.congestion_used
            then some (or_empty c.congestion_used)
            else t.congestion_used;
      }))
      ∷ ((λ t. record t {
        get_server_output = if c.get_server_output then true else t.get_server_output;
      }))
      ∷ ((λ t. record t {
        udp_counters_64bit = if c.udp_counters_64bit then true else t.udp_counters_64bit;
      }))
      ∷ ((λ t. record t {
        repeating_payload = if c.repeating_payload then true else t.repeating_payload;
      }))
      ∷ ((λ t. record t { zerocopy = if c.zerocopy then true else t.zerocopy }))
      ∷ ((on_settings (λ s. record s {
        dont_fragment = if c.settings.dont_fragment then true else s.dont_fragment;
      })))
      ∷ ((on_settings (λ s. record s {
        authtoken = if is_given token then some (or_empty token) else s.authtoken;
      })))
      ∷ ((on_settings (λ s. record s {
        skip_rx_copy = if c.settings.skip_rx_copy then true else s.skip_rx_copy;
      })))
      ∷ [])

  pub text-TakesAll : (fits : IsSendable c) → TakesAll j (text_updates fits)
  unfolding get_number get_string has_flag find_entry same_key
  text-TakesAll fits = (
    text-Takes j _ _ _ c.title (text_found c.title) (λ t. ground arith),
    (
      text-Takes j _ _ _ c.extra_data (text_found c.extra_data) (λ t. ground arith),
      (
        text-Takes j _ _ _ c.congestion (text_found c.congestion) (λ t. ground arith),
        (
          text-Takes j _ _ _ c.congestion_used (text_found c.congestion_used) (λ t. ground arith),
          (
            number_flag-Takes j _ _ _ c.get_server_output (pos 1) (ground arith)
                (λ t. ground arith),
            (
              number_flag-Takes j _ _ _ c.udp_counters_64bit (pos 1) (ground arith)
                  (λ t. ground arith),
              (
                number_flag-Takes j _ _ _ c.repeating_payload (pos 1) (ground arith)
                    (λ t. ground arith),
                (
                  number_flag-Takes j _ _ _ c.zerocopy (pos 1) (ground arith) (λ t. ground arith),
                  (
                    number_flag-Takes j _ _ _ c.settings.dont_fragment (pos 1) (ground arith)
                        (λ t. ground arith),
                    (
                      text-Takes j _ _ _ token (text_found token) (λ t. ground arith),
                      (
                        number_flag-Takes j _ _ _ c.settings.skip_rx_copy (pos 1) (ground arith)
                            (λ t. ground arith),
                        tt,
                      ),
                    ),
                  ),
                ),
              ),
            ),
          ),
        ),
      ),
    ),
  )
