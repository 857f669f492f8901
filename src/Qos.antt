-- ===== src/Qos.antt =====
-- Sources/IperfCLib/dscp.c: the names of the values of the IP type-of-service byte. `strtol` is an
-- argument: the number that a whole text stands for, if it stands for one.
pub mod Laws
mod Tests
use iperf_swift.Prelude.{
  codes, ℕ, ◌+◌, ◌*◌, ◌/◌, ◌%◌, Bool, true, false, Option, none, some, List, [], ◌∷◌, ◌++◌,
  if◌then◌else◌, ltb, ◌==◌,
}
use iperf_swift.Prelude.Int.{ℤ, pos, negsuc}
use iperf_swift.Output.Root.{same_key, hex_char}

-- `ipqos`
abbrev pub ipqos : List (List ℕ × ℕ)
ipqos =
    (codes "af11", 0x28)
    ∷ (codes "af12", 0x30)
    ∷ (codes "af13", 0x38)
    ∷ (codes "af21", 0x48)
    ∷ (codes "af22", 0x50)
    ∷ (codes "af23", 0x58)
    ∷ (codes "af31", 0x68)
    ∷ (codes "af32", 0x70)
    ∷ (codes "af33", 0x78)
    ∷ (codes "af41", 0x88)
    ∷ (codes "af42", 0x90)
    ∷ (codes "af43", 0x98)
    ∷ (codes "cs0", 0x00)
    ∷ (codes "cs1", 0x20)
    ∷ (codes "cs2", 0x40)
    ∷ (codes "cs3", 0x60)
    ∷ (codes "cs4", 0x80)
    ∷ (codes "cs5", 0xa0)
    ∷ (codes "cs6", 0xc0)
    ∷ (codes "cs7", 0xe0)
    ∷ (codes "ef", 0xb8)
    ∷ (codes "va", 0xb0)
    ∷ (codes "lowdelay", 0x10)
    ∷ (codes "throughput", 0x08)
    ∷ (codes "reliability", 0x04)
    ∷ []

-- the loop of `parse_qos`
unfoldable pub find_name : List ℕ → List (List ℕ × ℕ) → Option ℕ
find_name cp [] = none
find_name cp ((name, value) ∷ rest) =
    let other = find_name cp rest in if same_key cp name then some value else other

-- a number from 0 to 63, moved over the two low bits
unfoldable pub shift_value : Option ℤ → ℤ
shift_value none = negsuc 0
shift_value (some (negsuc n)) = negsuc 0
shift_value (some (pos val)) = if ltb 63 val then negsuc 0 else pos (val * 4)

unfoldable pub parse_qos : (List ℕ → Option ℤ) → Option (List ℕ) → ℤ
unfolding find_name shift_value
parse_qos strtol none = negsuc 0
parse_qos strtol (some cp) = elim (find_name cp ipqos) [
  | some value ↦ pos value
  | none ↦ shift_value (strtol cp)
]

-- the loop of `iptos2str`
unfoldable pub find_value : ℕ → List (List ℕ × ℕ) → Option (List ℕ)
find_value iptos [] = none
find_value iptos ((name, value) ∷ rest) =
    let other = find_value iptos rest in if value == iptos then some name else other

-- "0x%02x" of a number below 256
abbrev hex_text : ℕ → List ℕ
hex_text n = codes "0x" ++ (hex_char (n / 16) ∷ hex_char (n % 16) ∷ [])

abbrev clamp : ℤ → ℕ
clamp (negsuc n) = 0
clamp (pos n) = if ltb 64 n then 0 else n

unfoldable pub iptos2str : ℤ → List ℕ
unfolding find_value
iptos2str iptos = elim (find_value (clamp iptos) ipqos) [
  | some name ↦ name
  | none ↦ hex_text (clamp iptos)
]
