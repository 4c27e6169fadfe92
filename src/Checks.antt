-- ===== src/Checks.antt =====
-- internal/validate/validate.go: the checks of the server, the log, the debug port and the pools of
-- rate limits, and the Result that holds their messages.
pub mod Server
pub mod Pools
pub mod Accepted
pub mod Databases
mod Tests
use sqlproxy.Prelude.{
  ◌≡◌, refl, inl, inr, Bool-cases, List, [], ◌∷◌, ◌++◌, Text, Bool, true, false, All,
}

pub data Message : Type 0 where
  error_of warning_of : Text → Message

-- Result
pub record Report : Type 0 where
  pub valid : Bool
  pub errors : List Text
  pub warnings : List Text

-- addError and addWarning
unfoldable pub add_message : Message → Report → Report
add_message (error_of t) r = record r { valid = false; errors = r.errors ++ (t ∷ []) }
add_message (warning_of t) r = record r { warnings = r.warnings ++ (t ∷ []) }

unfoldable pub add_messages : List Message → Report → Report
unfolding add_message
add_messages [] r = r
add_messages (m ∷ ms) r = add_messages ms (add_message m r)

-- an error if the test holds
unfoldable pub error_if : Bool → Text → List Message
error_if true t = error_of t ∷ []
error_if false t = []

abbrev pub IsWarning : Message → Type 0
IsWarning (error_of t) = ⊥
IsWarning (warning_of t) = Unit

-- No message is an error.
abbrev pub NoErrors : List Message → Type 0
NoErrors ms = All IsWarning ms

pub NoErrors-error_if : (b : Bool) (t : Text) → NoErrors (error_if b t) → b ≡ false
unfolding error_if
NoErrors-error_if true t h = absurd h.0
NoErrors-error_if false t h = refl

pub NoErrors-++ : (ms ns : List Message) → NoErrors (ms ++ ns) → NoErrors ms × NoErrors ns
NoErrors-++ [] ns h = (tt, h)
NoErrors-++ (m ∷ ms) ns (h, hs) = let rest = NoErrors-++ ms ns hs in ((h, rest.0), rest.1)

add_messages_invalid :
    (ms : List Message) (r : Report) → r.valid ≡ false → (add_messages ms r).valid ≡ false
unfolding add_messages add_message
add_messages_invalid [] r e = e
add_messages_invalid (error_of t ∷ ms) r e =
    add_messages_invalid ms (add_message (error_of t) r) refl
add_messages_invalid (warning_of t ∷ ms) r e =
    add_messages_invalid ms (add_message (warning_of t) r) e

-- A report that is valid in the end met no error.
pub add_messages_valid :
    (ms : List Message) (r : Report) → (add_messages ms r).valid ≡ true → NoErrors ms
unfolding add_messages add_message
add_messages_valid [] r e = tt
add_messages_valid (error_of t ∷ ms) r e =
    let off = add_messages_invalid ms (add_message (error_of t) r) refl in absurd (cc (off, e))
add_messages_valid (warning_of t ∷ ms) r e =
    (tt, add_messages_valid ms (add_message (warning_of t) r) e)
