-- ===== src/Broker/Tests/Server.antt =====
-- Requests to the server over the in-memory stores.
use helm_broker.Common.{
  if◌then◌else◌, ◌≡◌, refl, true, false, none, some, [], ◌∷◌, ok, err, plain, exists_in,
}
use helm_broker.Dict.{lookup}
use helm_broker.Model.Values.{lookup_field}
use helm_broker.Model.Instances.{is_provisioning_allowed}
use helm_broker.Storage.Operations
use helm_broker.Storage.Addons
use helm_broker.Storage.Instances
use helm_broker.Broker.Action.{◌>>=◌}
use helm_broker.Broker.Memory.{Stores, memory}
use helm_broker.Broker.Provision.{ProvisioningInput, started_input, provision}
use helm_broker.Broker.Provision.Task.{IsPending}
use helm_broker.Broker.Server.Http.{
  HttpRequest, HttpResponse, Texts, ProvisionRequestDto, write_response, parsed_body,
  provision_success, validate_provision, contains_text,
}
use helm_broker.Broker.Server.{serve, provision_action, deprovision_action}
use helm_broker.Broker.Server.Replies.{responded, nothing, provisioning, provision_request}
use helm_broker.Broker.Server.Admission.{
  Marshals, has_context, admits, serve-refused, serve-IsPending,
}
use helm_broker.Broker.Tests.{clock, redis, micro, empty_stores}

abbrev dto : ProvisionRequestDto
dto = record {
  service_id = "addon-1";
  plan_id = "plan-1";
  organization_guid = "org";
  space_guid = "space";
  parameters = none;
  namespace = "shop";
}

abbrev texts : Texts
texts = record {
  parse_provision = λ body. ok dto;
  parse_bind = λ body. err (plain "unexpected end of JSON input");
  marshal = λ object. ok "{}";
  html = λ s. s;
  recovered = record { code = 500; content = none };
}

texts-Marshals : Marshals texts
texts-Marshals object = ("{}", refl)

abbrev put : HttpRequest
put = record {
  vars = ("instance_id", "i") ∷ [];
  query = ("accepts_incomplete", "true") ∷ [];
  headers = ("X-Broker-Api-Version", "2.14") ∷ [];
  body = ok "{}";
}

-- The client does not accept an asynchronous answer.
abbrev impatient : HttpRequest
impatient = record put { query = [] }

refused : admits deprovision_action impatient ≡ false
unfolding contains_text lookup
refused = refl

serve-refused_example :
    (response : HttpResponse) × (serve texts
        (memory clock)
        (λ ps. ps)
        (ok "op-1")
        deprovision_action
        impatient
        empty_stores
      ≡ (responded response nothing, empty_stores))
    × (response.code ≡ (if has_context impatient then 422 else 412))
serve-refused_example =
    serve-refused texts (memory clock) (λ ps. ps) (ok "op-1") deprovision_action impatient
      empty_stores texts-Marshals refused

abbrev input : ProvisioningInput
input = started_input (provision_request "i" dto) "" "shop" redis micro "op-1"

abbrev pending : Stores
pending = (provision (memory clock) (ok "op-1") "" (provision_request "i" dto) empty_stores).1

abbrev accepted_response : HttpResponse
accepted_response = write_response texts 202 (provision_success (some "op-1"))

served :
    serve texts (memory clock) (λ ps. ps) (ok "op-1") provision_action put empty_stores
    ≡ (responded accepted_response (provisioning input), pending)
unfolding serve lookup provision ◌>>=◌ Operations.get_all lookup_field Addons.get_by_id
    Instances.get_all is_provisioning_allowed Operations.insert exists_in Instances.upsert
served = refl

serve-IsPending_example :
    (admits provision_action put ≡ true)
    × (d : ProvisionRequestDto) × (parsed_body texts.parse_provision put.body ≡ ok d)
    × (validate_provision d ≡ none)
    × IsPending clock (provision_request "i" d) input pending
    × (accepted_response ≡ write_response texts 202 (provision_success (some input.operation_id)))
unfolding lookup
serve-IsPending_example =
    serve-IsPending texts clock (λ ps. ps) (ok "op-1") put empty_stores pending accepted_response
      input texts-Marshals served
