-- ===== src/Params/Frame.antt =====
-- `JSON_write` and `JSON_read` of iperf_api.c: a JSON text on the control connection, behind its
-- length in network byte order. The connection is the bytes that come until it ends, and whether it
-- ends with an error: `Nread` gives as many bytes as there are. Printing and parsing are cJSON's.
use iperf_swift.Prelude.{
  if_both, ℕ, ◌+◌, ◌<◌, ◌≤◌, ◌^◌, Bool, true, false, not, ◌&&◌, ◌||◌, ◌≡◌, refl, ◌⊎◌, ap, ◌∙◌, inl,
  inr, Bool-cases, Option, none, some, List, ◌++◌, if◌then◌else◌, ltb, leb, ◌==◌, length,
  length-append, take, drop, arith,
}
use iperf_swift.Prelude.Slices.{take-all, take-append_left, drop-append_left}
use iperf_swift.Prelude.Words.{u32}
use iperf_swift.Prelude.Int.{is_negative, i32}
use iperf_swift.Udp.Header.{be32_bytes, be32_at}

pub record Connection : Type 0 where
  pub bytes : List ℕ
  pub breaks : Bool

-- `Nread`: none for -1, and what is left
abbrev nread : ℕ → Connection → Option (List ℕ) × Connection
nread n c =
    let left = record c { bytes = drop n c.bytes } in
    if ltb (length c.bytes) n && c.breaks then (none, left) else (some (take n c.bytes), left)

-- What `JSON_write` sends, where the printing does not fail and the connection takes it, and whether it
-- returns 0: the second `Nwrite` returns the number of bytes as an `int`.
unfoldable pub json_write : Option (List ℕ) → Option (List ℕ × Bool)
json_write none = none
json_write (some str) =
    let hsize = u32 (length str) in
    some (be32_bytes hsize ++ take hsize str, not (is_negative (i32 hsize)))

-- `rc >= 0` and `rc == hsize`, where `rc` is the `int` that the second `Nread` returns
abbrev is_text : ℕ → List ℕ → Bool
is_text hsize str = not (is_negative (i32 (length str))) && (length str == hsize)

-- what becomes of the text that was read, for its announced length
abbrev after_text :
    {J : Type 0} → (List ℕ → Option J) → ℕ → Option (List ℕ) × Connection → Option J × Connection
after_text parse hsize (none, left) = (none, left)
after_text parse hsize (some str, left) = (if is_text hsize str then parse str else none, left)

-- The length is accepted below `max_size`, if that is not 0, and if it leaves room for a NUL on 32
-- bits.
abbrev is_accepted : ℕ → ℕ → Bool
is_accepted max_size hsize =
    (ltb 0 hsize && (max_size == 0 || leb hsize max_size)) && not (u32 (hsize + 1) == 0)

-- what becomes of the four bytes of the length
abbrev after_size :
    {J : Type 0} → (List ℕ → Option J) → ℕ → Option (List ℕ) × Connection → Option J × Connection
after_size parse max_size (none, left) = (none, left)
after_size parse max_size (some nsize, left) =
    if (length nsize == 4) && is_accepted max_size (be32_at nsize 0)
    then after_text parse (be32_at nsize 0) (nread (be32_at nsize 0) left)
    else (none, left)

-- The warnings are left out.
unfoldable pub json_read :
    {J : Type 0} → (List ℕ → Option J) → ℕ → Connection → Option J × Connection
json_read parse max_size c = after_size parse max_size (nread 4 c)

nread-exact :
    (xs rest : List ℕ) (breaks : Bool)
    → nread (length xs) (record { bytes = xs ++ rest; breaks = breaks })
      ≡ (some xs, record { bytes = rest; breaks = breaks })
nread-exact xs rest breaks =
    let enough : ltb (length (xs ++ rest)) (length xs) ≡ false =
      ground (arith, length-append xs rest) in
    rw (enough, take-append_left xs rest, drop-append_left xs rest)

-- too few bytes: an error, or less than was asked for
nread-short :
    {J : Type 0} (parse : List ℕ → Option J) (n : ℕ) (c : Connection)
    → length c.bytes < n
    → (after_text parse n (nread n c)).0 ≡ none
nread-short parse n c short =
    let fewer : ltb (length c.bytes) n ≡ true = ground arith in
    let wrong : is_text n (take n c.bytes) ≡ false =
      ground (arith, take-all c.bytes n (omega arith)) in
    elim (Bool-cases c.breaks) [
      | inl breaks ↦ rw (fewer, breaks)
      | inr ends ↦ rw (fewer, ends, wrong)
    ]

-- the bytes of a length give it back
size-is : (n : ℕ) → n < 2 ^ 32 → be32_at (be32_bytes n) 0 ≡ n
size-is n fits = ground arith

after_size-frame :
    {J : Type 0} (parse : List ℕ → Option J) (max_size n : ℕ) (left : Connection)
    → n < 2 ^ 32
    → after_size parse max_size (some (be32_bytes n), left)
      ≡ (if is_accepted max_size n then after_text parse n (nread n left) else (none, left))
after_size-frame parse max_size n left fits =
    ap (λ m. if is_accepted max_size m then after_text parse m (nread m left) else (none, left))
      (size-is n fits)

-- A text that was written is read as it is parsed, and what follows on the connection is left, and
-- `JSON_write` returns 0, if the text is not empty, below 2^31 bytes and not above the bound of the
-- reader.
pub json_read-json_write :
    {J : Type 0} (parse : List ℕ → Option J) (max_size : ℕ) (str rest : List ℕ) (breaks : Bool)
    → 0 < length str
    → length str < 2 ^ 31
    → (max_size ≡ 0) ⊎ (length str ≤ max_size)
    → (frame : List ℕ) × (json_write (some str) ≡ some (frame, true))
      × (json_read parse max_size (record { bytes = frame ++ rest; breaks = breaks })
          ≡ (parse str, record { bytes = rest; breaks = breaks }))
unfolding json_read json_write
json_read-json_write parse max_size str rest breaks some_bytes fits bound =
    let n = length str in
    let left : Connection = record { bytes = str ++ rest; breaks = breaks } in
    let size : u32 n ≡ n = omega arith in
    let taken : is_accepted max_size n ≡ true = ground arith in
    let same : is_text n str ≡ true = ground arith in
    let ready : not (is_negative (i32 (u32 n))) ≡ true = ground arith in
    let text = nread-exact str rest breaks in
    (
      be32_bytes (u32 n) ++ str,
      ap (λ (sent : List ℕ × Bool). some sent)
          (ap (λ s. (be32_bytes (u32 n) ++ s, not (is_negative (i32 (u32 n)))))
              (take-all str (u32 n) (omega arith))
            ∙ ap (λ b. (be32_bytes (u32 n) ++ str, b)) ready),
      ap (after_size parse max_size) (nread-exact (be32_bytes (u32 n)) (str ++ rest) breaks)
          ∙ (ap (λ m. after_size parse max_size (some (be32_bytes m), left)) size
              ∙ (after_size-frame parse max_size n left (omega arith)
                  ∙ (ap (λ b. if b then after_text parse n (nread n left) else (none, left)) taken
                      ∙ (ap (after_text parse n) text
                          ∙ ap
                              (λ b. (
                                if b then parse str else none,
                                record { bytes = rest; breaks = breaks },
                              ))
                              same)))),
    )

-- A longer text than the reader's bound is refused, and only its length is taken from the connection.
pub json_read_refuses :
    {J : Type 0} (parse : List ℕ → Option J) (max_size : ℕ) (str rest : List ℕ) (breaks : Bool)
    → length str < 2 ^ 32
    → 0 < max_size
    → max_size < length str
    → json_read parse max_size
        (record { bytes = be32_bytes (length str) ++ (str ++ rest); breaks = breaks })
      ≡ (none, record { bytes = str ++ rest; breaks = breaks })
unfolding json_read
json_read_refuses parse max_size str rest breaks fits bounded long =
    let n = length str in
    let left : Connection = record { bytes = str ++ rest; breaks = breaks } in
    let refused : is_accepted max_size n ≡ false = ground arith in
    ap (after_size parse max_size) (nread-exact (be32_bytes n) (str ++ rest) breaks)
    ∙ (after_size-frame parse max_size n left fits ∙ rw refused)

-- A connection that ends within the text gives nothing.
pub json_read_truncated :
    {J : Type 0} (parse : List ℕ → Option J) (max_size n : ℕ) (str : List ℕ) (breaks : Bool)
    → n < 2 ^ 32
    → length str < n
    → (json_read parse max_size (record { bytes = be32_bytes n ++ str; breaks = breaks })).0 ≡ none
unfolding json_read
json_read_truncated {J} parse max_size n str breaks fits short =
    let left : Connection = record { bytes = str; breaks = breaks } in
    ap (λ r. r.0)
      (ap (after_size parse max_size) (nread-exact (be32_bytes n) str breaks)
        ∙ after_size-frame parse max_size n left fits)
    ∙ if_both (λ (r : Option J × Connection). r.0 ≡ none) (is_accepted max_size n) _ _
        (λ taken. nread-short parse n left short) (λ refused. refl)
