-- ===== src/Common/Errors.antt =====
-- Go's error values. An `error` result is an `Option Error`, whose `none` is `nil`; a result with
-- an error beside it is a `Result`.
use Prim.Native.String.{String, ◌++◌}
use mathlib.Core.Path.{◌≡◌, refl}
use mathlib.Core.Logic.{◌⊎◌, inl, inr}
use mathlib.Core.Bool.{Bool, true, false}
use mathlib.Core.Option.{Option, none, some}

-- `Kind` of an addon's error
pub data ErrorKind : Type 0 where
  unknown loading_error_kind fetching_error_kind : ErrorKind

pub data Error : Type 0 where
  not_found : Error
  already_exists : Error
  active_operation_in_progress : Error
  plain : String → Error
  -- `errors.Wrap(err, message)`
  wrap : String → Error → Error
  -- `addon.Error`, with the error that it holds
  of_kind : ErrorKind → Error → Error
  -- `TemporaryError` of the controller
  temporary : Error

-- `IsNotFoundError` asks the outermost error value for its `NotFound` method, which the value
-- that `errors.Wrap` returns does not have.
abbrev pub is_not_found : Error → Bool
is_not_found not_found = true
is_not_found _ = false

abbrev pub is_already_exists : Error → Bool
is_already_exists already_exists = true
is_already_exists _ = false

abbrev pub is_active_operation_in_progress : Error → Bool
is_active_operation_in_progress active_operation_in_progress = true
is_active_operation_in_progress _ = false

pub data Result {ℓ} (A : Type ℓ) : Type ℓ where
  ok : A → Result A
  err : Error → Result A

-- `errors.Wrap` of the error of a result.
abbrev pub wrap_result {ℓ} : {A : Type ℓ} → String → Result A → Result A
wrap_result message (ok a) = ok a
wrap_result message (err e) = err (wrap message e)

-- The `error` of a call whose other result is not used.
abbrev pub error_of {ℓ} : {A : Type ℓ} → Result A → Option Error
error_of (ok a) = none
error_of (err e) = some e

pub Result-cases {ℓ} :
    {A : Type ℓ} (r : Result A) → ((e : Error) × (r ≡ err e)) ⊎ ((a : A) × (r ≡ ok a))
Result-cases (ok a) = inr (a, refl)
Result-cases (err e) = inl (e, refl)

-- `Error()`
unfoldable pub error_text : Error → String
error_text not_found = "element not found"
error_text already_exists = "element already exists"
error_text active_operation_in_progress = "there is an active operation in progres for instance"
error_text (plain message) = message
error_text (wrap message e) = message ++ (": " ++ error_text e)
error_text (of_kind kind e) = error_text e
error_text temporary = "Temporary error"

-- `errors.Cause`
pub cause : Error → Error
cause (wrap message e) = cause e
cause e = e

abbrev is_fetching_kind : ErrorKind → Bool
is_fetching_kind fetching_error_kind = true
is_fetching_kind _ = false

abbrev has_fetching_kind : Error → Bool
has_fetching_kind (of_kind kind e) = is_fetching_kind kind
has_fetching_kind _ = false

-- `IsFetchingError` of an addon's error
unfoldable pub is_fetching_error : Error → Bool
unfolding cause
is_fetching_error e = has_fetching_kind (cause e)

-- `errors.Is(err, TemporaryError)`
unfoldable pub is_temporary : Error → Bool
is_temporary temporary = true
is_temporary (wrap message e) = is_temporary e
is_temporary _ = false

-- A wrapped error is of the kind of its cause.
pub is_fetching_error-wrap :
    (message : String) (e : Error) → is_fetching_error (wrap message e) ≡ is_fetching_error e
unfolding is_fetching_error cause
is_fetching_error-wrap message e = refl
