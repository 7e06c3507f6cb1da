-- ===== src/Broker/Server/Http.antt =====
-- Requests, responses and their texts: the reading and writing of internal/broker/server.go, and the bodies of
-- internal/broker/dto.go.
use Prim.Native.Char.{code}
use Prim.Native.String as Text
use Prim.Native.String.{◌++◌}
use text.Mathlib.Text.{starts_with}
use helm_broker.Common.{
  ℕ, String, Bool, ◌||◌, Option, none, some, List, Error, plain, Result, ok, err, is_empty, nat_eq,
  if◌then◌else◌,
}
use helm_broker.Dict.{Dict, lookup}
use helm_broker.Model.Values.{Fields}
use helm_broker.Model.Instances.{InstanceCredentials}
use helm_broker.Model.Operations.{OperationId, OperationState}
use helm_broker.Broker.Catalog.{Service}

-- What the handlers read of a request: the variables of its path, the first value of each query parameter and
-- header, and the body.
pub record HttpRequest : Type 0 where
  pub vars : Dict String
  pub query : Dict String
  pub headers : Dict String
  pub body : Result String

-- A missing key reads as the empty text.
abbrev pub text_of : Option String → String
text_of none = ""
text_of (some v) = v

abbrev pub get_value : String → Dict String → String
get_value key m = text_of (lookup key m)

-- `contextDTO` is read for its namespace.
pub record ProvisionRequestDto : Type 0 where
  pub service_id : String
  pub plan_id : String
  pub organization_guid : String
  pub space_guid : String
  pub parameters : Option Fields
  pub namespace : String

pub record BindParametersDto : Type 0 where
  pub service_id : String
  pub plan_id : String
  pub has_parameters : Bool
  pub namespace : String

-- `Validate` of the parameters of `Provision`
unfoldable pub validate_provision : ProvisionRequestDto → Option Error
validate_provision p =
    if is_empty p.organization_guid
    then some (plain "OrganizationGUID must be non-empty string")
    else if is_empty p.space_guid
    then some (plain "SpaceGUID must be non-empty string")
    else none

-- `Validate` of the parameters of `Bind`
unfoldable pub validate_bind : BindParametersDto → Option Error
validate_bind p =
    if is_empty p.plan_id
    then some (plain "PlanID must be non-empty string")
    else if is_empty p.service_id
    then some (plain "ServiceID must be non-empty string")
    else none

-- The objects that are written: `ProvisionSuccessResponseDTO`, `BindInProgressResponseDTO`,
-- `BindSuccessResponseDTO`, `LastOperationSuccessResponseDTO`, the catalog and errors.
pub data Body : Type 0 where
  empty_object : Body
  services : List Service → Body
  provision_success : Option OperationId → Body
  bind_in_progress : Option OperationId → Body
  bind_success : Option InstanceCredentials → Body
  last_operation_success : OperationState → Option String → Body
  problem : String → String → Body

pub record HttpResponse : Type 0 where
  pub code : ℕ
  pub content : Option String

-- JSON, `sanitize.HTML`, and the response that the recovery from a panic writes.
pub record Texts : Type 0 where
  pub parse_provision : String → Result ProvisionRequestDto
  pub parse_bind : String → Result BindParametersDto
  pub marshal : Body → Result String
  pub html : String → String
  pub recovered : HttpResponse

-- `strings.ReplaceAll` of one character by nothing
unfoldable pub strip_char : ℕ → String → String
strip_char n Text.[] = ""
strip_char n (Text.◌∷◌ c s) =
    let rest = strip_char n s in if nat_eq (code c) n then rest else Text.◌∷◌ c rest

-- `strings.Contains`
unfoldable pub contains_text : String → String → Bool
contains_text part Text.[] = is_empty part
contains_text part (Text.◌∷◌ c s) = starts_with (Text.◌∷◌ c s) part || contains_text part s

module _ (texts : Texts) where
  -- `sanitizeParameter`
  unfoldable pub sanitize_parameter : String → String
  unfolding strip_char
  sanitize_parameter p = texts.html (strip_char 13 (strip_char 10 p))

  -- `writeResponse`
  unfoldable pub write_response : ℕ → Body → HttpResponse
  write_response status object = elim (texts.marshal object) [
    | err e ↦ record { code = 500; content = none }
    | ok data' ↦ record { code = status; content = some (texts.html data') }
  ]

  abbrev sanitized_unless_empty : String → String
  sanitized_unless_empty s = if is_empty s then "" else texts.html s

  -- `writeErrorResponse`
  unfoldable pub write_error_response : ℕ → String → String → HttpResponse
  unfolding write_response
  write_error_response status message desc =
      write_response status (problem (sanitized_unless_empty message) (sanitized_unless_empty desc))

-- `httpBodyToDTO`
abbrev pub parsed_body : {A : Type 0} → (String → Result A) → Result String → Result A
parsed_body parse (err e) = err e
parsed_body parse (ok body) = parse body
