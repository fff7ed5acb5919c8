-- ===== src/Driver/Serve.antt =====
-- rust/interop-driver/src/main.rs: `main`, which answers each line that it reads.
use fips_tcp.Common.{Eq, List, Option, Result, [], err, map, none, ok, some, ℕ, ◌>>=◌, ◌∷◌}
use Prim.Native.String.{String}
use fips_tcp.Driver.{
  Ending, Output, finished, panicked, unprinted, Command, Driver, DriverError, Fault, Response,
  Value, error, of_line, panics,
}
use fips_tcp.Driver.Hex.{encode_hex}
use fips_tcp.Driver.Execute.{default_seed, execute}
use fips_tcp.Stack.{Outbound}
use fips_tcp.Stack.Open
use fips_tcp.Stack.Calls
use fips_tcp.Types.{default_config}

module _ {P : Type 0} where
  -- The variables before the first line; the argument is the counter of marker.rs.
  unfoldable pub initial : ℕ → Option (Driver P)
  initial next_token = elim (Open.new default_config default_seed next_token) [
    | none ↦ none
    | some s ↦ some (record { stack = s; markers = []; next_marker = 1 })
  ]

  abbrev pub printed : Outbound P → P × List ℕ
  printed o = (o.peer, encode_hex o.bytes)

  unfoldable pub drain_outbound : Driver P → Driver P × List (P × List ℕ)
  drain_outbound d =
      let (s, out) = Calls.drain_outbound d.stack in (record d { stack = s }, map printed out)

  abbrev pub response : Driver P → Result DriverError Value → Driver P × Response P
  response d r = let (d', out) = drain_outbound d in (d', record { result = r; outbound = out })

  -- What is printed for the result of a command; nothing, if it panicked.
  unfoldable pub reply : Driver P × Result Fault Value → Option (Driver P × Response P)
  reply (d, ok v) = some (response d (ok v))
  reply (d, err (error e)) = some (response d (err e))
  reply (d, err panics) = none

-- One response as a line of its own; an error is the panic of an `expect`.
unfoldable pub print : {P W : Type 0} → Output P W → Response P → W → Result String W
print out r w = do serialized ← out.to_writer r w; ended ← out.writeln serialized; out.flush ended

-- The argument is the reader of JSON. A line is its text or the error of reading it.
module _ {P : Type 0} ⦃e : Eq P⦄ (parse : String → Result String (Command P)) where
  abbrev pub command_of : Result String String → Result String (Command P)
  command_of line = line >>= parse

  unfoldable pub handle : Result String String → Driver P → Option (Driver P × Response P)
  handle line d = elim (command_of line) [
    | ok command ↦ reply (execute command d)
    | err message ↦ reply (d, err (error (of_line message)))
  ]

  -- The loop: the responses that were printed, and how it ended.
  unfoldable pub serve :
      {W : Type 0}
      → Output P W
      → List (Result String String)
      → Driver P
      → W
      → List (Response P) × Ending
  serve out [] d w = ([], finished)
  serve out (line ∷ lines) d w = elim (handle line d) [
    | none ↦ ([], panicked)
    | some (d', r) ↦ elim (print out r w) [
      | err message ↦ ([], unprinted)
      | ok w' ↦ let (rs, ending) = serve out lines d' w' in (r ∷ rs, ending)
    ]
  ]

  -- `main`; `none` is the panic of `Stack::new`.
  unfoldable pub main :
      {W : Type 0}
      → Output P W
      → W
      → ℕ
      → List (Result String String)
      → Option (List (Response P) × Ending)
  main out w next_token lines = elim (initial next_token) [
    | none ↦ none
    | some d ↦ some (serve out lines d w)
  ]
