-- ===== src/Message/Failure.antt =====
-- Go's `error` values of the WebSocket gateway, and a call that returns `(value, error)`.
use zerogame.Shared.{String}
use zerogame.Shared.Int.{ℤ}
use zerogame.Shared.Effect.{Outcome, returned, panicked, Logger, nil, ready}
use zerogame.Message.Body.{Kind}

-- One constructor for each text of an `fmt.Errorf`; what `%w` wraps is its argument. `library` is
-- an error of a package that is not the repository's.
pub data Error : Type 0 where
  library : String → Error
  invalid_message_format : Error → Error
  header_required : Error
  invalid_message_type : ℤ → Error
  failed_to_serialize_message : Error → Error
  header_is_nil : Error
  unsupported_message_type : ℤ → Error
  failed_to_parse : Kind → Error → Error
  failed_to_marshal : Kind → Error → Error
  failed_to_marshal_response : Error → Error
  failed_to_serialize_push : Error → Error
  failed_to_parse_body : Error → Error
  invalid_proto_format : Error → Error
  failed_to_serialize_proto : Error → Error
  unsupported_for_proto : ℤ → Error

pub data Result (A : Type 0) : Type 0 where
  ok : A → Result A
  err : Error → Result A

-- A call with no state of its own that returns `(A, error)` or panics.
abbrev pub Call : Type 0 → Type 0
Call A = Outcome (Result A)

abbrev pub success : {A : Type 0} → A → Call A
success a = returned (ok a)

abbrev pub failure : {A : Type 0} → Error → Call A
failure e = returned (err e)

-- `a, err := call; if err != nil { return wrap(err) }; …`.
abbrev pub check : {A B : Type 0} → Call A → (Error → Error) → (A → Call B) → Call B
check (returned (ok a)) wrap k = k a
check (returned (err e)) wrap k = failure (wrap e)
check panicked wrap k = panicked

abbrev pub map_err : {A : Type 0} → (Error → Error) → Result A → Result A
map_err wrap (ok a) = ok a
map_err wrap (err e) = err (wrap e)

-- `p.Errorf(…)` before the return.
abbrev pub log_then : {A : Type 0} → Logger → Outcome A → Outcome A
log_then nil o = panicked
log_then ready o = o
