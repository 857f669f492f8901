-- ===== src/Output.antt =====
-- Sources/IperfCLib/iperf_bounded_output.c and its header: the state of the bounded reader of a
-- peer's results, and the monad in which its functions are written.
pub mod Stream
pub mod Text
pub mod Value
pub mod Root
pub mod Read
pub mod Keeps
pub mod Safe
pub mod Results
mod Tests
use iperf_swift.Prelude.{
  ℕ, ◌*◌, Bool, true, false, Option, none, some, List, [], if◌then◌else◌, ◌==◌,
}

abbrev pub output_max_bytes : ℕ
output_max_bytes = 1024 * 1024

abbrev pub core_max_bytes : ℕ
core_max_bytes = 1024 * 1024

abbrev pub frame_max_bytes : ℕ
frame_max_bytes = 67108864

abbrev pub max_depth : ℕ
max_depth = 64

abbrev pub core_max_values : ℕ
core_max_values = 16384

abbrev pub max_values : ℕ
max_values = 1048576

abbrev pub max_number_length : ℕ
max_number_length = 63

-- errno values of the development's system; any different numbers but 0 would do
abbrev pub einval : ℕ
einval = 22

abbrev pub efbig : ℕ
efbig = 27

abbrev pub eproto : ℕ
eproto = 100

abbrev pub enomem : ℕ
enomem = 12

pub data OutputState : Type 0 where
  missing complete truncated discarded invalid : OutputState

pub data OutputFormat : Type 0 where
  no_format text json : OutputFormat

pub data OutputReason : Type 0 where
  no_reason byte_limit node_limit depth_limit invalid_data allocation_failure read_failure :
      OutputReason

-- `struct iperf_server_output`. `value` is none for NULL, else the bytes `value[0..length)`.
pub record ServerOutput : Type 0 where
  pub value : Option (List ℕ)
  pub observed_bytes : ℕ
  pub state : OutputState
  pub format : OutputFormat
  pub reason : OutputReason
  pub observed_bytes_complete : Bool

-- `struct iperf_result_read_metrics`
pub record ReadMetrics : Type 0 where
  pub bytes_read : ℕ
  pub core_json_bytes : ℕ
  pub core_values : ℕ
  pub maximum_depth : ℕ
  pub peak_buffer_capacity : ℕ

pub data Capture : Type 0 where
  discard core output_json : Capture

-- One call of the reader callback: the bytes that it returns (none of them for the end), or -1 with
-- an errno.
pub data ReadCall : Type 0 where
  chunk : List ℕ → ReadCall
  read_fails : ℕ → ReadCall

-- `struct parser`. `pending` is `input[cursor..available)`, `core_json` is `core[0..core_length)`,
-- `key` is the buffer of the key that is being decoded (`struct decoded`), and `calls` is what the
-- coming calls of the reader give; with none left it returns 0.
pub record Parser : Type 0 where
  pub calls : List ReadCall
  pub remaining : ℕ
  pub pending : List ℕ
  pub core_json : List ℕ
  pub key : List ℕ
  pub limit : ℕ
  pub capture : Capture
  pub output : ServerOutput
  pub metrics : ReadMetrics
  pub values : ℕ
  pub output_values : ℕ
  pub error : ℕ

-- A function of the parser: its new state, and none where it returns 0 or -1.
abbrev pub P : Type 0 → Type 0
P A = Parser → Parser × Option A

infixl 5 ◌>>=◌ ◌>>◌
unfoldable pub ◌>>=◌ : {A B : Type 0} → P A → (A → P B) → P B
◌>>=◌ m f p = let r = m p in elim (r.1) [ none ↦ (r.0, none) | some a ↦ f a (r.0) ]

abbrev pub ◌>>◌ : {A B : Type 0} → P A → P B → P B
m >> k = m >>= λ _. k

unfoldable pub pure : {A : Type 0} → A → P A
pure a p = (p, some a)

-- a change of the state, and a look at it
unfoldable pub modify : (Parser → Parser) → P (Unit {0})
modify f p = (f p, some tt)

unfoldable pub gets : {A : Type 0} → (Parser → A) → P A
gets f p = (p, some (f p))

-- `fail`: the first error stays.
abbrev pub set_error : ℕ → Parser → Parser
set_error e p = if p.error == 0 then record p { error = e } else p

unfoldable pub fail : {A : Type 0} → ℕ → P A
fail e p = (set_error e p, none)

-- `return 0` without an error of its own
unfoldable pub stop : {A : Type 0} → P A
stop p = (p, none)

-- what is done with -1, or NULL, and with a value
unfoldable pub match_option : {A B : Type 0} → Option A → P B → (A → P B) → P B
match_option none m f = m
match_option (some a) m f = f a

-- `if (b)` over two continuations
unfoldable pub branch : {A : Type 0} → Bool → P A → P A → P A
branch true m n = m
branch false m n = n

abbrev pub when : Bool → P (Unit {0}) → P (Unit {0})
when b m = branch b m (pure tt)

-- `if (b) return fail(p, e);`
abbrev pub fail_if : Bool → ℕ → P (Unit {0})
fail_if b e = branch b (fail e) (pure tt)
