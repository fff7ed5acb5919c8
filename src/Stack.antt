-- ===== src/Stack.antt =====
-- rust/fips-tcp/src/stack.rs and the stack_*.rs files that it includes: the table of connections
-- and the calls of an application.
pub mod Table
pub mod Core
pub mod Open
pub mod Calls
pub mod Input
pub mod Keys
pub mod Consistency
pub mod Safety
pub mod Encodes
pub mod Opening
pub mod Undo
pub mod Limits
pub mod Ports
pub mod Aborts
pub mod History
use fips_tcp.Common.{Bool, List, Option, Result, err, ok, ℕ}
use fips_tcp.Wire.{Segment}
use fips_tcp.Types.{Config, StackError}
use fips_tcp.Connection.{Connection}

pub record ConnectionKey (P : Type 0) : Type 0 where
  pub peer : P
  pub local_port : ℕ
  pub remote_port : ℕ

pub record Outbound (P : Type 0) : Type 0 where
  pub peer : P
  pub bytes : List ℕ

-- The classifier is the application's.
pub record ConnectionReservation (P : Type 0) : Type 0 where
  pub slots : ℕ
  pub eligible : P → Bool

-- The hash maps are association lists in the order of an iteration over them. `next_token` is the
-- process-wide counter of marker.rs, which only the creation of a connection moves.
pub record Stack (P : Type 0) : Type 0 where
  pub config : Config
  pub reservation : Option (ConnectionReservation P)
  pub listeners : List ℕ
  pub accepts : List (ℕ × List ℕ)
  pub connections : List (ℕ × Connection P)
  pub lookup : List (ConnectionKey P × ℕ)
  pub outbound : List (Outbound P)
  pub next_connection_id : ℕ
  pub next_ephemeral_port : ℕ
  pub isn_state : ℕ
  pub next_token : ℕ

-- How a call fails: with an error that it returns, or by a panic of the code.
pub data Failure : Type 0 where
  stack : StackError → Failure
  panic : Failure

-- A call gives the stack that it leaves and its result.
abbrev pub Call : Type 0 → Type 0 → Type 0
Call P A = Stack P × Result Failure A

-- `?` on a call: a failure keeps what the call has changed.
abbrev pub and_then : {P A B : Type 0} → Call P A → (Stack P → A → Call P B) → Call P B
and_then (s, ok a) f = f s a
and_then (s, err e) f = (s, err e)
