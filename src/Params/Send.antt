-- ===== src/Params/Send.antt =====
-- `send_parameters` of iperf_api.c: the object that the client builds. cJSON is a parameter: an empty
-- object, the adding of an item at its end, and the search for a name.
use iperf_swift.Prelude.{
  codes, ℕ, zero, suc, ◌+◌, ◌-◌, ◌*◌, ◌/◌, ◌%◌, ◌^◌, min, ltb, ◌&&◌, ◌||◌, Bool, true, false, not,
  Option, none, some, List, [], ◌∷◌, ◌++◌, if◌then◌else◌, ◌==◌, ◌≡◌,
}
use iperf_swift.Prelude.Int.{ℤ, pos, negsuc}
use iperf_swift.Output.Root.{same_key}
use iperf_swift.Errors.{Error, ie_send_params}
use iperf_swift.Params.{Protocol, sctp, is_udp, is_tcp, IperfTest}
use iperf_swift.Params.Receive.{Item, bool_item, number_item, string_item, Lookup, is_zero}

-- one conditional `cJSON_Add...ToObject`
abbrev pub Entry : Type 0
Entry = Bool × (List ℕ × Item)

abbrev is_sctp : Protocol → Bool
is_sctp sctp = true
is_sctp _ = false

abbrev pub is_given : Option (List ℕ) → Bool
is_given none = false
is_given (some w) = true

abbrev pub or_empty : Option (List ℕ) → List ℕ
or_empty none = []
or_empty (some w) = w

-- a text, if there is one
abbrev optional : List ℕ → Option (List ℕ) → Entry
optional name w = (is_given w, (name, string_item (or_empty w)))

-- a number, if it is not zero
abbrev non_zero : List ℕ → ℕ → Entry
non_zero name n = (not (n == 0), (name, number_item (pos n)))

abbrev non_zero_int : List ℕ → ℤ → Entry
non_zero_int name v = (not (is_zero v), (name, number_item v))

-- a flag that is sent as the number 1
abbrev flag_number : List ℕ → Bool → Entry
flag_number name b = (b, (name, number_item (pos 1)))

abbrev pub is_unset : ℤ → Bool
is_unset (negsuc n) = n == 0
is_unset (pos n) = false

-- from the protocol to "burst"
abbrev pub test_entries : IperfTest → List Entry
test_entries t =
    let s = t.settings in
    (is_tcp t.protocol, (codes "tcp", bool_item true))
    ∷ (is_udp t.protocol, (codes "udp", bool_item true))
    ∷ (is_sctp t.protocol, (codes "sctp", bool_item true))
    ∷ (true, (codes "omit", number_item (pos t.omit)))
    ∷ (not (is_unset t.server_affinity), (codes "server_affinity", number_item t.server_affinity))
    ∷ (true, (codes "time", number_item (pos t.duration)))
    ∷ (true, (codes "num", number_item (pos s.bytes)))
    ∷ (true, (codes "blockcount", number_item (pos s.blocks)))
    ∷ non_zero (codes "MSS") s.mss
    ∷ (t.no_delay, (codes "nodelay", bool_item true))
    ∷ (true, (codes "parallel", number_item (pos t.num_streams)))
    ∷ (t.reverse, (codes "reverse", bool_item true))
    ∷ (t.bidirectional, (codes "bidirectional", bool_item true))
    ∷ non_zero (codes "window") s.socket_bufsize
    ∷ non_zero_int (codes "len") s.blksize
    ∷ non_zero (codes "bandwidth") s.rate
    ∷ non_zero (codes "fqrate") s.fqrate
    ∷ non_zero_int (codes "pacing_timer") s.pacing_timer
    ∷ non_zero (codes "burst") s.burst
    ∷ (is_udp t.protocol, (codes "gso", number_item s.gso))
    ∷ (is_udp t.protocol, (codes "gso_dg_size", number_item s.gso_dg_size))
    ∷ (is_udp t.protocol, (codes "gso_bf_size", number_item s.gso_bf_size))
    ∷ (is_udp t.protocol, (codes "gro", number_item (pos s.gro)))
    ∷ (is_udp t.protocol, (codes "gro_bf_size", number_item s.gro_bf_size))
    ∷ non_zero (codes "TOS") s.tos
    ∷ non_zero (codes "flowlabel") s.flowlabel
    ∷ []

-- from "title" to "client_version", with the token of the authentication
abbrev pub text_entries : List ℕ → Option (List ℕ) → IperfTest → List Entry
text_entries version token t =
    optional (codes "title") t.title
    ∷ optional (codes "extra_data") t.extra_data
    ∷ optional (codes "congestion") t.congestion
    ∷ optional (codes "congestion_used") t.congestion_used
    ∷ flag_number (codes "get_server_output") t.get_server_output
    ∷ flag_number (codes "udp_counters_64bit") t.udp_counters_64bit
    ∷ flag_number (codes "repeating_payload") t.repeating_payload
    ∷ flag_number (codes "zerocopy") t.zerocopy
    ∷ flag_number (codes "dont_fragment") t.settings.dont_fragment
    ∷ optional (codes "authtoken") token
    ∷ flag_number (codes "skip_rx_copy") t.settings.skip_rx_copy
    ∷ (true, (codes "client_version", string_item version))
    ∷ []

abbrev pub exact_entries : List ℕ → Option (List ℕ) → IperfTest → List Entry
exact_entries version token t = test_entries t ++ text_entries version token t

-- the nearest multiple of `half + half`, of two the even one
abbrev round_at : ℕ → ℕ → ℕ
round_at half n =
    let unit = half + half in
    let up = ltb half (n % unit) || (n % unit == half && (n / unit % 2 == 1)) in
    if up then (n / unit + 1) * unit else n / unit * unit

-- the nearest `double` of a number from 2^53 to 2^(53 + fuel) - 1: 53 bits are kept
unfoldable pub round_from : ℕ → ℕ → ℕ → ℕ
round_from zero half n = n
round_from (suc fuel) half n =
    let later = round_from fuel (half + half) n in
    if ltb n (2 ^ 53 * (half + half)) then round_at half n else later

-- the `valueint` of an `uint64_t` for which `cJSON_AddNumberToObject` takes a `double`
unfoldable pub as_valueint : ℕ → ℕ
as_valueint n = min (2 ^ 63 - 1) (if ltb n (2 ^ 53) then n else round_from 11 1 n)

-- The test as it is sent: an `int` is a `double`, the 64-bit numbers are rounded to one.
unfoldable pub as_doubles : IperfTest → IperfTest
unfolding as_valueint
as_doubles t = record t {
  settings = record t.settings {
    bytes = as_valueint t.settings.bytes;
    blocks = as_valueint t.settings.blocks;
    rate = as_valueint t.settings.rate;
    fqrate = as_valueint t.settings.fqrate;
  };
}

unfoldable pub all_entries : List ℕ → Option (List ℕ) → IperfTest → List Entry
unfolding as_doubles
all_entries version token t = exact_entries version token (as_doubles t)

-- The parts of cJSON that the code uses on objects.
pub record Cjson : Type 1 where
  pub Object : Type 0
  pub create : Object
  pub add : List ℕ → Item → Object → Object
  pub get_object_item : Object → Lookup

-- the first of two findings
abbrev pub first : Option Item → Option Item → Option Item
first (some item) other = some item
first none other = other

-- The documented behaviour: an empty object has no item; an item that is added is found under its
-- name, whatever the case of the letters, unless one with that name was there before it.
pub record CjsonLaws (c : Cjson) : Type 0 where
  pub get-create : (key : List ℕ) → c.get_object_item c.create key ≡ none
  pub get-add :
      (o : c.Object) (name : List ℕ) (item : Item) (key : List ℕ)
      → c.get_object_item (c.add name item o) key
        ≡ first (c.get_object_item o key) (if same_key key name then some item else none)

-- the item of a list of entries that a search finds
unfoldable pub find_entry : List Entry → Lookup
find_entry [] key = none
find_entry ((given, (name, item)) ∷ entries) key =
    let later = find_entry entries key in
    if same_key key name then (if given then some item else later) else later

module _ (c : Cjson) where
  open c use {Object, create, add, get_object_item}

  unfoldable pub add_entries : List Entry → Object → Object
  add_entries [] o = o
  add_entries ((given, (name, item)) ∷ entries) o =
      add_entries entries (if given then add name item o else o)

  -- The object. `token`: none where the client has no password, otherwise what `encode_auth_setting`
  -- gives: none where it fails. The debugging output is left out.
  unfoldable pub build_parameters : List ℕ → Option (Option (List ℕ)) → IperfTest → Option Object
  unfolding add_entries all_entries
  build_parameters version none t = some (add_entries (all_entries version none t) create)
  build_parameters version (some none) t = none
  build_parameters version (some (some token)) t =
      some (add_entries (all_entries version (some token) t) create)

  -- `writes`: `JSON_write` for an object
  unfoldable pub send_parameters :
      (Object → Bool) → List ℕ → Option (Option (List ℕ)) → IperfTest → Option Error
  unfolding build_parameters
  send_parameters writes version token t = elim (build_parameters version token t) [
    | none ↦ some ie_send_params
    | some o ↦ if writes o then none else some ie_send_params
  ]
