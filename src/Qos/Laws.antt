-- ===== src/Qos/Laws.antt =====
-- What the type-of-service values of dscp.c are, and which of them get their name back.
use iperf_swift.Prelude.{
  ℕ, subst, if◌then◌else◌, ◌%◌, ◌<◌, ◌≡◌, refl, inl, inr, Bool-cases, Option, none, some, List, [],
  ◌∷◌, ltb, arith,
}
use iperf_swift.Prelude.Int.{ℤ, pos, negsuc}
use iperf_swift.Output.Root.{same_key}
use iperf_swift.Qos.{ipqos, find_name, shift_value, parse_qos, find_value, iptos2str}

-- -1, or a byte whose two low bits, which belong to congestion notification, are clear.
abbrev pub IsTos : ℤ → Type 0
IsTos (negsuc n) = n ≡ 0
IsTos (pos n) = (n < 256) × (n % 4 ≡ 0)

-- the values of a table
abbrev All : (ℕ → Type 0) → List (List ℕ × ℕ) → Type 0
All P [] = Unit {0}
All P ((name, value) ∷ rest) = P value × All P rest

find_name-All :
    (P : ℕ → Type 0) (cp : List ℕ) (table : List (List ℕ × ℕ)) (value : ℕ)
    → All P table
    → find_name cp table ≡ some value
    → P value
unfolding find_name
find_name-All P cp [] value all e = absurd (ground arith)
find_name-All P cp ((name, v) ∷ rest) value all e = elim (Bool-cases (same_key cp name)) [
  | inl same ↦ subst P (ground arith) all.0
  | inr other ↦ find_name-All P cp rest value all.1 (ground arith)
]

shift_value-IsTos : (val : Option ℤ) → IsTos (shift_value val)
unfolding shift_value
shift_value-IsTos none = refl
shift_value-IsTos (some (negsuc n)) = refl
shift_value-IsTos (some (pos val)) = elim (Bool-cases (ltb 63 val)) [
  | inl large ↦ rw large refl
  | inr small ↦ rw small (ground arith, omega arith)
]

table-IsTos : All (λ value. IsTos (pos value)) ipqos
table-IsTos = omega arith

-- Whatever text and whatever number it stands for, `parse_qos` gives -1 or a byte whose two low bits
-- are clear.
pub parse_qos-IsTos :
    (strtol : List ℕ → Option ℤ) (cp : Option (List ℕ)) → IsTos (parse_qos strtol cp)
unfolding parse_qos
parse_qos-IsTos strtol none = refl
parse_qos-IsTos strtol (some cp) = found (find_name cp ipqos) refl
  where
    found :
        (r : Option ℕ)
        → find_name cp ipqos ≡ r
        → IsTos (elim r [ some value ↦ pos value | none ↦ shift_value (strtol cp) ])
    found none e = shift_value-IsTos (strtol cp)
    found (some value) e = find_name-All (λ v. IsTos (pos v)) cp ipqos value table-IsTos e

-- what a value is after it was printed and parsed
abbrev IsPrinted : (List ℕ → Option ℤ) → ℕ → Type 0
IsPrinted strtol value =
    parse_qos strtol (some (iptos2str (pos value))) ≡ pos (if ltb 64 value then 0 else value)

table-IsPrinted : (strtol : List ℕ → Option ℤ) → All (IsPrinted strtol) ipqos
unfolding parse_qos find_name iptos2str find_value same_key
table-IsPrinted strtol = ground arith

-- The value of a name, printed and parsed again, is the value itself exactly up to 64, which is that of
-- cs2; every larger one, such as those of ef, va, cs3 and af41, comes back as 0.
pub parse_qos-iptos2str :
    (strtol : List ℕ → Option ℤ) (cp : List ℕ) (value : ℕ)
    → find_name cp ipqos ≡ some value
    → parse_qos strtol (some (iptos2str (pos value))) ≡ pos (if ltb 64 value then 0 else value)
parse_qos-iptos2str strtol cp value =
    find_name-All (IsPrinted strtol) cp ipqos value (table-IsPrinted strtol)
