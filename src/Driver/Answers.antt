-- ===== src/Driver/Answers.antt =====
-- rust/interop-driver/src/main.rs: the loop of `main` and its answers.
use fips_tcp.Common.{
  All, Eq, List, Option, Option-cases, Result, Result-cases, [], arith, err, inl, inr, length, none,
  ok, refl, some, subst, suc, u64_max, ℕ, ◌<◌, ◌∷◌, ◌≡◌, ◌⊎◌,
}
use Prim.Native.String.{String}
use fips_tcp.Driver.{
  Ending, Output, finished, unprinted, Command, Driver, Fault, Response, Value, error, of_line,
  panics,
}
use fips_tcp.Driver.Execute.{execute}
use fips_tcp.Driver.Serve.{command_of, drain_outbound, handle, main, reply, serve, print}
use fips_tcp.Driver.Ready.{IsReady, IsRunnable, Runs, execute-Runs, stay-IsReady, initial-IsReady}
use fips_tcp.Stack.Calls

-- A line that asks for a runnable command, or that is no command.
abbrev pub IsFair : {P : Type 0} → Result String (Command P) → Type 0
IsFair (ok command) = IsRunnable command
IsFair (err message) = Unit

module _ {P : Type 0} ⦃e : Eq P⦄ where
  drain_outbound-IsReady : (n : ℕ) (d : Driver P) → IsReady n d → IsReady n (drain_outbound d).0
  unfolding drain_outbound Calls.drain_outbound
  drain_outbound-IsReady n d v = record {
    tables = record { linked = v.tables.linked; fresh = v.tables.fresh };
    handles = v.handles;
    identifiers = v.identifiers;
    room = v.room;
  }

  -- What is printed, and the driver behind it.
  abbrev Replies : ℕ → Option (Driver P × Response P) → Type 0
  Replies n none = ⊥
  Replies n (some (d, r)) = IsReady n d

  reply-Replies : (n : ℕ) (r : Driver P × Result Fault Value) → Runs n r → Replies n (reply r)
  unfolding reply
  reply-Replies n (d, ok v) h = drain_outbound-IsReady n d h.0
  reply-Replies n (d, err (error w)) h = drain_outbound-IsReady n d h.0
  reply-Replies n (d, err panics) h = absurd h.1

module _ {P : Type 0} ⦃e : Eq P⦄ (parse : String → Result String (Command P)) where
  handle-Replies :
      (n : ℕ) (line : Result String String) (d : Driver P)
      → IsReady (suc n) d
      → IsFair (command_of parse line)
      → Replies n (handle parse line d)
  unfolding handle
  handle-Replies n line d v c = elim (Result-cases (command_of parse line)) [
    | inl (command, a) ↦
        let f : IsRunnable command = subst IsFair a c in
        rw (a, handle) (reply-Replies n (execute command d) (execute-Runs n command d v f))
    | inr (message, a) ↦
        rw (a, handle) (reply-Replies n (d, err (error (of_line message))) (stay-IsReady n d v, tt))
  ]

  module _ {W : Type 0} (out : Output P W) where
    -- One response for each line, to the end of the lines.
    abbrev pub Complete : List (Result String String) → List (Response P) × Ending → Type 0
    Complete lines r = (length r.0 ≡ length lines) × (r.1 ≡ finished)

    -- A line whose response the output does not take is the last.
    abbrev pub CutShort : List (Result String String) → List (Response P) × Ending → Type 0
    CutShort lines r =
        (length r.0 < length lines)
        × (r.1 ≡ unprinted)
        × (x : Response P) × (w : W) × (message : String) × (print out x w ≡ err message)

    abbrev pub Prints : List (Result String String) → List (Response P) × Ending → Type 0
    Prints lines r = Complete lines r ⊎ CutShort lines r

    more-Prints :
        (line : Result String String) (lines : List (Result String String)) (x : Response P)
        (r : List (Response P) × Ending)
        → Prints lines r
        → Prints (line ∷ lines) (x ∷ r.0, r.1)
    more-Prints line lines x r (inl (count, ending)) = inl (omega (arith, count), ending)
    more-Prints line lines x r (inr (count, ending, x', w, message, failure)) =
        inr (omega (arith, count), ending, x', w, message, failure)

    serve-Prints :
        (lines : List (Result String String)) (d : Driver P) (w : W)
        → IsReady (length lines) d
        → All (λ line. IsFair (command_of parse line)) lines
        → Prints lines (serve parse out lines d w)
    unfolding serve
    serve-Prints [] d w v c = inl (refl, refl)
    serve-Prints (line ∷ lines) d w v c =
        let h = handle-Replies (length lines) line d v c.0 in
        elim (Option-cases (handle parse line d)) [
          | inl a ↦ absurd (subst (Replies (length lines)) a h)
          | inr ((d', r), a) ↦ elim (Result-cases (print out r w)) [
            | inl (w', b) ↦
                let ready : IsReady (length lines) d' = subst (Replies (length lines)) a h in
                let rest = serve-Prints lines d' w' ready c.1 in
                rw (a, b, serve) (more-Prints line lines r (serve parse out lines d' w') rest)
            | inr (message, b) ↦ rw (a, b, serve) (inr (omega arith, refl, r, w, message, b))
          ]
        ]

    -- Whatever the reader of JSON makes of the lines and whichever calls of the output fail: when
    -- there are fewer than 2 ^ 64 - 1 lines, each `Configure` has a valid configuration and each
    -- text of bytes is ASCII, the driver either comes to the end of the lines and has printed one
    -- response for each, or ends with the panic of a response whose output fails, having printed
    -- fewer responses than there are lines. In particular, no command panics.
    pub main-Prints :
        (w : W) (next_token : ℕ) (lines : List (Result String String))
        → length lines < u64_max
        → All (λ line. IsFair (command_of parse line)) lines
        → (r : List (Response P) × Ending) × (main parse out w next_token lines ≡ some r)
          × Prints lines r
    unfolding main
    main-Prints w next_token lines h c =
        let (d, made, ready) = initial-IsReady {P = P} next_token (length lines) h in
        (serve parse out lines d w, rw (made, main) refl, serve-Prints lines d w ready c)
