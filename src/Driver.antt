-- ===== src/Driver.antt =====
-- rust/interop-driver/src/main.rs: the program that runs a stack by commands, one on each line, for
-- the tests that let two implementations talk to each other.
pub mod Hex
pub mod Execute
pub mod Serve
pub mod Ready
pub mod Answers
pub mod Handles
use fips_tcp.Common.{List, Option, Result, [], ℕ, ◌∷◌}
use Prim.Native.Char.{code}
use Prim.Native.String.{String}
use fips_tcp.Stack.{Stack}
use fips_tcp.Marker.{SendMarker}
use fips_tcp.Types.{StackError}

-- The bytes of a text, if it is ASCII.
abbrev pub codes : String → List ℕ
codes String.[] = []
codes (String.◌∷◌ c s) = code c ∷ codes s

-- The fields of `Configure`.
pub record Settings : Type 0 where
  pub max_connections : ℕ
  pub max_connections_per_peer : ℕ
  pub isn_seed : Option ℕ
  pub max_retransmissions : Option ℕ
  pub initial_rto_ms : Option ℕ
  pub min_rto_ms : Option ℕ
  pub max_rto_ms : Option ℕ

-- The peers are texts, of which the driver uses the equality alone. A text of bytes is the list of
-- the bytes of its UTF-8 form. The last number is the time, where a command has one.
pub data Command (P : Type 0) : Type 0 where
  configure : Settings → Command P
  reserve : ℕ → List P → Command P
  listen : ℕ → Command P
  connect : P → ℕ → ℕ → ℕ → ℕ → Command P
  auto_connect : P → ℕ → ℕ → Command P
  input : P → List ℕ → ℕ → Command P
  poll : ℕ → Command P
  accept : ℕ → Command P
  write : ℕ → List ℕ → ℕ → Command P
  write_with_marker : ℕ → List ℕ → ℕ → Command P
  marker_status : ℕ → Command P
  read : ℕ → ℕ → ℕ → Command P
  close : ℕ → ℕ → Command P
  state : ℕ → Command P

-- The JSON values that the driver makes.
pub data Value : Type 0 where
  null : Value
  number : ℕ → Value
  string : List ℕ → Value
  -- `{ "accepted": …, "marker": … }`
  written : ℕ → ℕ → Value

-- The errors that the driver prints; those of reading a line come with their text.
pub data DriverError : Type 0 where
  odd_length invalid_digit unknown_marker : DriverError
  of_stack : StackError → DriverError
  of_line : String → DriverError

-- How a command fails: with an error that is printed, or by a panic that ends the program.
pub data Fault : Type 0 where
  error : DriverError → Fault
  panics : Fault

-- The variables of `main`.
pub record Driver (P : Type 0) : Type 0 where
  pub stack : Stack P
  pub markers : List (ℕ × SendMarker)
  pub next_marker : ℕ

pub record Response (P : Type 0) : Type 0 where
  pub result : Result DriverError Value
  pub outbound : List (P × List ℕ)

-- The output of `main`, over the states that it is in: each call fails with the text of an error,
-- or leaves a state.
pub record Output (P : Type 0) (W : Type 0) : Type 0 where
  -- `serde_json::to_writer`
  pub to_writer : Response P → W → Result String W
  pub writeln : W → Result String W
  pub flush : W → Result String W

-- How `main` comes to its end: behind the last line, at a command that panics, or at a response
-- whose output panics.
pub data Ending : Type 0 where
  finished panicked unprinted : Ending
