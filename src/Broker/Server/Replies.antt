-- ===== src/Broker/Server/Replies.antt =====
-- internal/broker/server.go: how the answers of the handlers become responses.
use helm_broker.Common.{
  ℕ, String, true, Option, none, some, Result, ok, err, is_not_found, error_text, is_empty,
  if◌then◌else◌,
}
use helm_broker.Model.Values.{str, no_fields, field}
use helm_broker.Model.Instances.{InstanceCredentials}
use helm_broker.Model.Operations.{InstanceId, BindingId, OperationId}
use helm_broker.Broker.Action.{Outcome, done, failed, panicked, HttpError}
use helm_broker.Broker.Provision as Provisioning
use helm_broker.Broker.Provision.{ProvisionRequest, ProvisioningInput, provision}
use helm_broker.Broker.Deprovision as Deprovisioning
use helm_broker.Broker.Deprovision.{DeprovisioningInput, deprovision}
use helm_broker.Broker.LastOperation.{LastOperationResponse}
use helm_broker.Broker.Bind.{
  BindRequest, BindResponse, BindingInput, BindProgress, answered, reading,
}
use helm_broker.Broker.Server.Http.{
  HttpResponse, Texts, ProvisionRequestDto, BindParametersDto, write_response, write_error_response,
  Body, empty_object, provision_success, bind_in_progress, bind_success, last_operation_success,
}

-- The tasks that handlers start.
pub data Started : Type 0 where
  nothing : Started
  provisioning : ProvisioningInput → Started
  deprovisioning : DeprovisioningInput → Started
  binding : BindingInput → Started

-- A response with the task that was started; or `Bind` has started a task and is about to read the bind data of
-- the instance.
pub data Reply : Type 0 where
  responded : HttpResponse → Started → Reply
  reading_bind_data : InstanceId → BindingInput → Reply

abbrev pub started_provisioning : Option ProvisioningInput → Started
started_provisioning none = nothing
started_provisioning (some input) = provisioning input

abbrev pub started_deprovisioning : Option DeprovisioningInput → Started
started_deprovisioning none = nothing
started_deprovisioning (some input) = deprovisioning input

abbrev pub started_binding : Option BindingInput → Started
started_binding none = nothing
started_binding (some input) = binding input

-- A query parameter that is empty is not passed on.
abbrev pub unless_empty : String → Option String
unless_empty v = if is_empty v then none else some v

-- The request that `provisionAction` makes of the body.
abbrev pub provision_request : InstanceId → ProvisionRequestDto → ProvisionRequest
provision_request i dto = record {
  instance_id = i;
  accepts_incomplete = true;
  service_id = dto.service_id;
  plan_id = dto.plan_id;
  parameters = dto.parameters;
  context = field "namespace" (str dto.namespace) no_fields;
}

abbrev pub bind_request : InstanceId → BindingId → BindParametersDto → BindRequest
bind_request i j dto = record {
  instance_id = i;
  binding_id = j;
  service_id = dto.service_id;
  plan_id = dto.plan_id;
  accepts_incomplete = true;
  has_parameters = dto.has_parameters;
}

module _ (texts : Texts) where
  -- The response to an `osb.HTTPStatusCodeError`, whose description no handler sets.
  abbrev pub status_error : HttpError → HttpResponse
  status_error e = write_error_response texts e.status_code (error_text e.error_message) ""

  -- An answer with an operation: the read of a nil key panics.
  abbrev pub accepted : (Option OperationId → Body) → Option OperationId → HttpResponse
  accepted body none = texts.recovered
  accepted body (some op_id) = write_response texts 202 (body (some op_id))

  -- The end of `provisionAction`.
  unfoldable pub provision_reply : Outcome Provisioning.Answer → Reply
  unfolding write_response write_error_response
  provision_reply (failed e) = responded (status_error e) nothing
  provision_reply panicked = responded texts.recovered nothing
  provision_reply (done (response, started)) =
      responded
        (if response.async
          then accepted provision_success response.operation_key
          else write_response texts 200 empty_object)
        (started_provisioning started)

  -- The end of `deprovisionAction`; its success is the DTO of provisioning.
  unfoldable pub deprovision_reply : Result Deprovisioning.Answer → Reply
  unfolding write_response write_error_response
  deprovision_reply (err e) =
      responded
        (if is_not_found e
          then write_response texts 410 empty_object
          else write_error_response texts 400 (error_text e) "")
        nothing
  deprovision_reply (ok (response, started)) =
      responded
        (if response.async
          then accepted provision_success response.operation_key
          else write_response texts 410 empty_object)
        (started_deprovisioning started)

  -- The end of both reads of a last operation, with the status for an error.
  unfoldable pub last_operation_reply : ℕ → Result LastOperationResponse → Reply
  unfolding write_response write_error_response
  last_operation_reply status (err e) =
      responded
        (if is_not_found e
          then write_response texts 410 empty_object
          else write_error_response texts status (error_text e) "")
        nothing
  last_operation_reply status (ok response) =
      responded
        (write_response texts 200 (last_operation_success response.state response.description))
        nothing

  -- The end of `bindAction`.
  unfoldable pub bind_response : BindResponse → HttpResponse
  unfolding write_response
  bind_response response =
      if response.async
      then accepted bind_in_progress response.operation_key
      else write_response texts 200 (bind_success response.credentials)

  unfoldable pub bind_reply : InstanceId → Outcome BindProgress → Reply
  unfolding write_error_response bind_response
  bind_reply i (failed e) = responded (status_error e) nothing
  bind_reply i panicked = responded texts.recovered nothing
  bind_reply i (done (answered response started)) =
      responded (bind_response response) (started_binding started)
  bind_reply i (done (reading input)) = reading_bind_data i input

  -- The rest of `bindAction` for a binding that exists.
  unfoldable pub finish_bind_reply : BindingInput → Outcome BindResponse → Reply
  unfolding write_error_response bind_response
  finish_bind_reply input (failed e) = responded (status_error e) (binding input)
  finish_bind_reply input panicked = responded texts.recovered (binding input)
  finish_bind_reply input (done response) = responded (bind_response response) (binding input)

  unfoldable pub get_binding_reply : Outcome InstanceCredentials → Reply
  unfolding write_response write_error_response
  get_binding_reply (failed e) = responded (status_error e) nothing
  get_binding_reply panicked = responded texts.recovered nothing
  get_binding_reply (done creds) =
      responded (write_response texts 200 (bind_success (some creds))) nothing
