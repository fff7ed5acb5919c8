-- ===== src/Examples/Driving.antt =====
-- Runs at concrete inputs of the theorems about the interop driver.
use fips_tcp.Common.{
  List, Option, Result, [], arith, err, if◌then◌else◌, none, ok, refl, some, ℕ, ◌-◌, ◌<◌, ◌==◌, ◌∷◌,
  ◌≡◌,
}
use Prim.Native.String.{String}
use text.Mathlib.Text.{◌==◌ as text_eq}
use fips_tcp.Driver.Hex
use fips_tcp.Connection.{Connection}
use fips_tcp.Connection.Send
use fips_tcp.Driver.{
  Ending, Output, finished, unprinted, Command, Driver, Response, listen, write_with_marker,
  written, marker_status, string, codes, poll,
}
use fips_tcp.Driver.Hex.{decode_hex, encode_hex}
use fips_tcp.Driver.Hex.RoundTrip.{decode_hex-encode_hex, decode_hex-Decoded, Decoded}
use fips_tcp.Driver.Execute.{execute, status_name}
use fips_tcp.Driver.Serve.{main, serve, handle, reply, print, initial, drain_outbound}
use fips_tcp.Driver.Answers.{Prints, main-Prints}
use fips_tcp.Driver.Handles.{written-Names, after_all}
use fips_tcp.Marker.{SendMarker}
use fips_tcp.Stack.{Stack, stack}
use fips_tcp.Stack.Table.{nat_eq, get}
use fips_tcp.Stack.Calls
use fips_tcp.Stack.Open
use fips_tcp.Types
use fips_tcp.Examples.{listener, queued}

decode_hex-encode_hex_example :
    decode_hex (encode_hex (0 ∷ 171 ∷ 255 ∷ [])) ≡ ok (0 ∷ 171 ∷ 255 ∷ [])
decode_hex-encode_hex_example = decode_hex-encode_hex (0 ∷ 171 ∷ 255 ∷ []) (omega arith)

decode_hex-Decoded_example : Decoded 4 (decode_hex (codes "0Ag1"))
decode_hex-Decoded_example = decode_hex-Decoded (codes "0Ag1") (omega arith)

-- A reader of two commands.
abbrev parse : String → Result String (Command ℕ)
parse line = if text_eq line "listen" then ok (listen 80) else err "no command"

abbrev lines : List (Result String String)
lines = ok "listen" ∷ ok "what" ∷ err "broken pipe" ∷ []

-- An output that takes some lines before it is closed.
abbrev output : Output ℕ ℕ
output = record {
  to_writer = λ r w. if w == 0 then err "broken pipe" else ok w;
  writeln = λ w. ok (w - 1);
  flush = λ w. ok w;
}

main-Prints_example :
    (r : List (Response ℕ) × Ending) × (main parse output 3 1 lines ≡ some r)
    × Prints parse output lines r
main-Prints_example = main-Prints parse output 3 1 lines (omega arith) (tt, (tt, (tt, tt)))

abbrev ending_of : Option (List (Response ℕ) × Ending) → Option Ending
ending_of none = none
ending_of (some (responses, ending)) = some ending

-- The endings with an output that takes all responses, and one that takes two of them.
endings :
    (ending_of (main parse output 3 1 lines) ≡ some finished)
    × (ending_of (main parse output 2 1 lines) ≡ some unprinted)
unfolding main serve handle reply print initial drain_outbound execute Open.new Open.listen
    Calls.drain_outbound Types.validate
endings = (refl, refl)

-- A connection whose peer takes no bytes for now.
abbrev stalled : Connection ℕ
stalled = record queued { remote_window = 0 }

-- A driver whose stack has one open connection.
abbrev driver : Driver ℕ
driver = record {
  stack = record listener { connections = (1, stalled) ∷ []; next_connection_id = 2 };
  markers = [];
  next_marker = 1;
}

abbrev bytes_text : List ℕ
bytes_text = codes "0a0b"

driver-Below : (h : ℕ) (m : SendMarker) → get h driver.markers ≡ some m → h < driver.next_marker
unfolding get
driver-Below h m g = absurd (ground (arith, g))

decoded : decode_hex bytes_text ≡ ok (10 ∷ 11 ∷ [])
unfolding decode_hex Hex.decode_pairs Hex.from_str_radix Hex.to_digit
decoded = refl

accepted : (execute (write_with_marker 1 bytes_text 20) driver).1 ≡ ok (written 2 1)
unfolding execute fips_tcp.Driver.Execute.keep_marker decode_hex Hex.decode_pairs Hex.from_str_radix
    Hex.to_digit Calls.write_with_marker get fips_tcp.Stack.Table.insert Send.write Send.flush_data
    Send.send_rounds Send.send_fin fips_tcp.Connection.new fips_tcp.Reno.window
    fips_tcp.Stack.Core.emit fips_tcp.Stack.Core.emit_to fips_tcp.Marker.accept
    fips_tcp.Marker.marker fips_tcp.Seq.distance
accepted = refl

written-Names_example :
    let later = after_all (poll 2000 ∷ []) (execute (write_with_marker 1 bytes_text 20) driver).0 in
    (m : SendMarker) × ((Calls.write_with_marker 1 (10 ∷ 11 ∷ []) 20 driver.stack).1 ≡ ok (2, m))
    × (get 1 driver.markers ≡ none)
    × ((execute (marker_status 1) later).1
        ≡ ok (string (status_name (Calls.marker_status m later.stack))))
written-Names_example =
    written-Names 1 bytes_text 20 (10 ∷ 11 ∷ []) driver 2 1 (poll 2000 ∷ []) driver-Below decoded
      accepted (tt, tt)
