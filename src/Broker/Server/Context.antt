-- ===== src/Broker/Server/Context.antt =====
-- internal/broker/ctx.go and middleware.go: what every request is checked for before its handler runs.
use Prim.Native.String.{◌++◌}
use helm_broker.Common.{
  String, not, ◌&&◌, Option, none, some, Error, plain, ◌==◌, is_empty, error_text, if◌then◌else◌,
}
use helm_broker.Model.Addons.{Namespace}
use helm_broker.Broker.Server.Http.{
  HttpRequest, HttpResponse, Texts, get_value, contains_text, write_error_response,
}

pub record OsbContext : Type 0 where
  pub api_version : String
  pub originating_identity : String
  pub broker_namespace : Namespace

abbrev pub osb_api_version : String
osb_api_version = "2.14"

-- `validateAPIVersion`
unfoldable pub validate_api_version : OsbContext → Option Error
validate_api_version ctx =
    if not (ctx.api_version == osb_api_version)
    then some (
        plain
          ("while checking 'X-Broker-API-Version' header, should be 2.14, got " ++ ctx.api_version))
    else none

-- `validateOriginatingIdentity`
unfoldable pub validate_originating_identity : OsbContext → Option Error
unfolding contains_text
validate_originating_identity ctx =
    if not (is_empty ctx.originating_identity)
      && not (contains_text "kubernetes" ctx.originating_identity)
    then some (
        plain (
          "while checking 'X-Broker-API-Originating-Identity' header, should be kubernetes, got "
          ++ ctx.originating_identity))
    else none

-- The context of a request. The path of the cluster's broker has no namespace, and the cluster stands as
-- the empty namespace.
unfoldable pub osb_context : HttpRequest → OsbContext
osb_context r = record {
  api_version = get_value "X-Broker-Api-Version" r.headers;
  originating_identity = get_value "X-Broker-Api-Originating-Identity" r.headers;
  broker_namespace = get_value "namespace" r.vars;
}

abbrev pub version_description : String
version_description = "Requests requires the 'X-Broker-API-Version' header specified"

abbrev pub identity_description : String
identity_description = "Requests requires the 'X-Broker-API-Originating-Identity' header specified"

abbrev pub async_description : String
async_description = "This service plan requires client support for asynchronous service operations."

module _ (texts : Texts) {R S : Type 0} (respond : HttpResponse → R) where
  -- `ServeHTTP` of `OSBContextMiddleware`
  unfoldable pub osb_context_middleware : HttpRequest → (OsbContext → S → R × S) → S → R × S
  unfolding osb_context validate_api_version validate_originating_identity write_error_response
  osb_context_middleware r next s = elim (validate_api_version (osb_context r)) [
    | some e ↦ (respond (write_error_response texts 412 (error_text e) version_description), s)
    | none ↦ elim (validate_originating_identity (osb_context r)) [
      | some e ↦ (respond (write_error_response texts 412 (error_text e) identity_description), s)
      | none ↦ next (osb_context r) s
    ]
  ]

  -- `ServeHTTP` of `RequireAsyncMiddleware`
  unfoldable pub require_async_middleware : HttpRequest → (S → R × S) → S → R × S
  unfolding write_error_response
  require_async_middleware r next s =
      if not (get_value "accepts_incomplete" r.query == "true")
      then (respond (write_error_response texts 422 "AsyncRequired" async_description), s)
      else next s
