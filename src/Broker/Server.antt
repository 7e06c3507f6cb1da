-- ===== src/Broker/Server.antt =====
-- internal/broker/server.go: the HTTP server of the Open Service Broker API.
pub mod Http
pub mod Context
pub mod Replies
pub mod Admission
use helm_broker.Common.{
  ℕ, String, Bool, true, false, Option, none, some, List, Error, Result, ok, err, is_not_found,
  error_text, is_empty, if◌then◌else◌,
}
use helm_broker.Model.Addons.{AddonPlan, Namespace}
use helm_broker.Model.Values.{str, no_fields, field}
use helm_broker.Model.Instances.{InstanceCredentials}
use helm_broker.Model.Operations.{InstanceId, BindingId, OperationId}
use helm_broker.Broker.Backend.{Backend}
use helm_broker.Broker.Action.{Outcome, done, failed, panicked, HttpError}
use helm_broker.Broker.Catalog.{Service, get_catalog}
use helm_broker.Broker.Provision as Provisioning
use helm_broker.Broker.Provision.{ProvisionRequest, ProvisioningInput, provision}
use helm_broker.Broker.Deprovision as Deprovisioning
use helm_broker.Broker.Deprovision.{DeprovisioningInput, deprovision}
use helm_broker.Broker.LastOperation.{LastOperationResponse, get_last_operation}
use helm_broker.Broker.Bind.{
  BindRequest, BindResponse, BindingInput, BindProgress, answered, reading, bind, finish_bind,
  get_bind_data, get_last_bind_operation,
}
use helm_broker.Broker.Server.Http.{
  HttpRequest, HttpResponse, Texts, ProvisionRequestDto, BindParametersDto, get_value, parsed_body,
  validate_provision, validate_bind, sanitize_parameter, write_response, write_error_response, Body,
  empty_object, services, provision_success, bind_in_progress, bind_success, last_operation_success,
}
use helm_broker.Broker.Server.Context.{OsbContext, osb_context_middleware, require_async_middleware}
use helm_broker.Broker.Server.Replies.{
  Reply, responded, Started, nothing, provision_request, bind_request, unless_empty,
  provision_reply, deprovision_reply, last_operation_reply, bind_reply, finish_bind_reply,
  get_binding_reply,
}

-- The operations that `handleRouter` registers.
pub data Endpoint : Type 0 where
  catalog_action provision_action deprovision_action : Endpoint
  get_service_instance_last_operation_action bind_action un_bind_action : Endpoint
  get_service_binding get_service_binding_last_operation_action : Endpoint

-- Those that `reqAsyncMiddleware` stands before.
abbrev pub requires_async : Endpoint → Bool
requires_async provision_action = true
requires_async deprovision_action = true
requires_async bind_action = true
requires_async _ = false

module _ (texts : Texts) {S : Type 0} (b : Backend S) where
  -- `catalogAction`; `order` is the order in which plans are visited.
  unfoldable pub catalog : (List AddonPlan → List AddonPlan) → OsbContext → S → Reply
  unfolding get_catalog write_response write_error_response
  catalog order ctx s = elim (get_catalog order (b.find_addons ctx.broker_namespace s)) [
    | err e ↦ responded (write_error_response texts 400 (error_text e) "") nothing
    | ok response ↦ responded (write_response texts 200 (services response)) nothing
  ]

  -- `provisionAction`; `new_id` is what the provider of ids would return.
  unfoldable pub provision_instance : Result OperationId → OsbContext → HttpRequest → S → Reply × S
  unfolding validate_provision write_error_response provision_reply
  provision_instance new_id ctx r s = elim (parsed_body texts.parse_provision r.body) [
    | err e ↦ (responded (write_error_response texts 400 (error_text e) "") nothing, s)
    | ok dto ↦ elim (validate_provision dto) [
      | some e ↦ (responded (write_error_response texts 400 (error_text e) "") nothing, s)
      | none ↦
          let (answer, s') =
            provision b new_id ctx.broker_namespace
              (provision_request (get_value "instance_id" r.vars) dto) s in
          (provision_reply texts answer, s')
    ]
  ]

  -- `deprovisionAction`
  unfoldable pub deprovision_instance : Result OperationId → HttpRequest → S → Reply × S
  unfolding sanitize_parameter deprovision_reply
  deprovision_instance new_id r s =
      let (answer, s') =
        deprovision b new_id
          (record {
            instance_id = sanitize_parameter texts (get_value "instance_id" r.vars);
            accepts_incomplete = true;
          })
          s in
      (deprovision_reply texts answer, s')

  -- `getServiceInstanceLastOperationAction`
  unfoldable pub service_instance_last_operation : HttpRequest → S → Reply
  unfolding sanitize_parameter last_operation_reply
  service_instance_last_operation r s = last_operation_reply texts 400 (
      get_last_operation b (sanitize_parameter texts (get_value "instance_id" r.vars))
        (unless_empty (sanitize_parameter texts (get_value "operation" r.query))) s)

  -- `bindAction`, up to its response or to the read of the bind data.
  unfoldable pub bind_instance : Result OperationId → OsbContext → HttpRequest → S → Reply × S
  unfolding sanitize_parameter validate_bind write_error_response bind_reply
  bind_instance new_id ctx r s = elim (parsed_body texts.parse_bind r.body) [
    | err e ↦ (
      responded
          (write_error_response texts 400 (error_text e)
            "cannot get bind parameters from request body")
          nothing,
      s,
    )
    | ok dto ↦ elim (validate_bind dto) [
      | some e ↦ (responded (write_error_response texts 400 (error_text e) "") nothing, s)
      | none ↦
          let i = sanitize_parameter texts (get_value "instance_id" r.vars) in
          let (answer, s') =
            bind b new_id ctx.broker_namespace
              (bind_request i (sanitize_parameter texts (get_value "binding_id" r.vars)) dto) s in
          (bind_reply texts i answer, s')
    ]
  ]

  -- The rest of `bindAction` for a binding that exists.
  unfoldable pub finish_bind_instance : InstanceId → BindingInput → S → Reply × S
  unfolding finish_bind_reply
  finish_bind_instance i input s =
      let (answer, s') = finish_bind b i s in (finish_bind_reply texts input answer, s')

  -- `getServiceBinding`
  unfoldable pub service_binding : HttpRequest → S → Reply × S
  unfolding sanitize_parameter get_binding_reply
  service_binding r s =
      let (answer, s') =
        get_bind_data b (sanitize_parameter texts (get_value "instance_id" r.vars))
          (sanitize_parameter texts (get_value "binding_id" r.vars)) s in
      (get_binding_reply texts answer, s')

  -- `getServiceBindingLastOperationAction`, which takes the operation as it is
  unfoldable pub service_binding_last_operation : HttpRequest → S → Reply
  unfolding sanitize_parameter last_operation_reply
  service_binding_last_operation r s = last_operation_reply texts 500 (
      get_last_bind_operation b
        (texts.html (sanitize_parameter texts (get_value "instance_id" r.vars)))
        (texts.html (sanitize_parameter texts (get_value "binding_id" r.vars)))
        (unless_empty (get_value "operation" r.query)) s)

  -- The handlers behind the middleware. `unBindAction` says that the binding is gone.
  unfoldable pub act :
      (List AddonPlan → List AddonPlan)
      → Result OperationId
      → Endpoint
      → HttpRequest
      → OsbContext
      → S
      → Reply × S
  unfolding catalog provision_instance deprovision_instance service_instance_last_operation
      bind_instance service_binding service_binding_last_operation write_response
  act order new_id catalog_action r ctx s = (catalog order ctx s, s)
  act order new_id provision_action r ctx s = provision_instance new_id ctx r s
  act order new_id deprovision_action r ctx s = deprovision_instance new_id r s
  act order new_id get_service_instance_last_operation_action r ctx s =
      (service_instance_last_operation r s, s)
  act order new_id bind_action r ctx s = bind_instance new_id ctx r s
  act order new_id un_bind_action r ctx s =
      (responded (write_response texts 410 empty_object) nothing, s)
  act order new_id get_service_binding r ctx s = service_binding r s
  act order new_id get_service_binding_last_operation_action r ctx s =
      (service_binding_last_operation r s, s)

  abbrev respond : HttpResponse → Reply
  respond response = responded response nothing

  -- A request as `handleRouter` has it served.
  unfoldable pub serve :
      (List AddonPlan → List AddonPlan)
      → Result OperationId
      → Endpoint
      → HttpRequest
      → S
      → Reply × S
  unfolding act osb_context_middleware require_async_middleware
  serve order new_id endpoint r s =
      osb_context_middleware texts respond r
        (λ ctx t.
          if requires_async endpoint
          then require_async_middleware texts respond r (act order new_id endpoint r ctx) t
          else act order new_id endpoint r ctx t)
        s
