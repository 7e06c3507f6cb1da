-- ===== src/Broker/Provision.antt =====
-- internal/broker/provision.go: the `Provision` handler; the task that it starts is in Installing. A mutex is held
-- over the whole handler, so it is one step; the task runs later, as another.
pub mod Keeps
pub mod Installing
pub mod Plan
pub mod Repeat
pub mod Started
pub mod Task
use Prim.Native.String.{◌++◌}
use helm_broker.Common.{
  ℕ, ◌+◌, String, Bool, true, false, Option, none, some, List, [], ◌∷◌, ◌||◌, ◌&&◌, not, ◌==◌,
  arith, if◌then◌else◌, is_empty, Error, plain, wrap, wrap_result, is_not_found, Result, ok, err,
  nat_eq, error_text, cause,
}
use helm_broker.Dict.{Dict, lookup}
use helm_broker.Model.Values.{
  Value, null, boolean, num, str, arr, obj, Fields, no_fields, field, lookup_field, set_field,
  field_count,
}
use helm_broker.Model.Values.Compare.{data_equal}
use helm_broker.Model.Values.Merge.{merge_values}
use helm_broker.Model.Addons.{Addon, AddonPlan, ChartValues, Namespace}
use helm_broker.Model.Charts.{Chart}
use helm_broker.Model.Instances.{ServiceInstance, ReleaseInfo, is_provisioning_allowed}
use helm_broker.Model.Operations.{
  InstanceId, OperationId, OperationState, RequestParameters, InstanceOperation, in_progress,
  succeeded, failed as operation_failed, create,
}
use helm_broker.Broker.Backend.{Backend}
use helm_broker.Broker.Action.{
  Outcome, done, panicked, Action, pure, fail, read, write, require, unit_result, ◌>>=◌, ◌>>◌,
  missing_is_bad_request, bad_request, conflict, internal_server_error,
}
use helm_broker.Broker.OperationState.{is_provisioned, is_provisioning_in_progress}
use helm_broker.Broker.ReleaseName.{create_release_name}

-- The fields of `osb.ProvisionRequest` that the handler reads.
pub record ProvisionRequest : Type 0 where
  pub instance_id : InstanceId
  pub accepts_incomplete : Bool
  pub service_id : String
  pub plan_id : String
  pub parameters : Option Fields
  pub context : Fields

pub record ProvisionResponse : Type 0 where
  pub async : Bool
  pub operation_key : Option OperationId

-- `provisioningInput`, what the task is started with.
pub record ProvisioningInput : Type 0 where
  pub instance_id : InstanceId
  pub operation_id : OperationId
  pub namespace : Namespace
  pub broker_namespace : Namespace
  pub release_name : String
  pub addon_plan : AddonPlan
  pub is_addon_bindable : Bool
  pub chart_overrides : ChartValues
  pub addons_repository_url : String
  pub instance_to_update : ServiceInstance

-- The response, and the task that the handler starts, if it does.
abbrev pub Answer : Type 0
Answer = ProvisionResponse × Option ProvisioningInput

-- `internal.Namespace(ns.(string))`: a value that is no text makes the type assertion panic.
assert_text : {S : Type 0} → Value → Action S Namespace
assert_text (str ns) s = (done ns, s)
assert_text _ s = (panicked, s)

-- `getNamespaceFromContext`, with what its caller makes of its error
get_namespace_from_context : {S : Type 0} → Fields → Action S Namespace
unfolding fail assert_text
get_namespace_from_context context s = elim (lookup_field "namespace" context) [
  | none ↦
      fail bad_request
        (wrap "while getting namespace from context"
          (plain "namespace does not exists in given context"))
        s
  | some v ↦ assert_text v s
]

-- `len(requestedParams.Data) == 0`
abbrev no_data : Option Fields → Bool
no_data none = true
no_data (some fs) = nat_eq (field_count fs) 0

-- The comparison at the end of `requestedParametersAreDifferent`.
parameters_differ : Option RequestParameters → Option Fields → Bool
parameters_differ none requested = not (no_data requested)
parameters_differ (some p) requested = not (data_equal p.params requested)

-- The operation that the handler inserts, and the instance that it stores.
abbrev pub new_operation : ProvisionRequest → OperationId → InstanceOperation
new_operation req op_id = record {
  instance_id = req.instance_id;
  operation_id = op_id;
  type = create;
  state = in_progress;
  state_description = none;
  provisioning_parameters = some (record { params = req.parameters });
  created_at = 0;
}

abbrev pub new_instance : ProvisionRequest → Namespace → Addon → AddonPlan → ServiceInstance
new_instance req namespace addon plan = record {
  id = req.instance_id;
  service_id = req.service_id;
  service_plan_id = req.plan_id;
  release_name = create_release_name addon.name plan.name req.instance_id;
  namespace = namespace;
  release_info = record { release_time = 0; revision = 0; config_values = none };
  provisioning_parameters = some (record { params = req.parameters });
  params_hash = "";
}

-- What a handler starts the task with, and its answer then.
abbrev pub started_input :
    ProvisionRequest → Namespace → Namespace → Addon → AddonPlan → OperationId → ProvisioningInput
started_input req broker_namespace namespace addon plan op_id = record {
  instance_id = req.instance_id;
  operation_id = op_id;
  namespace = namespace;
  broker_namespace = broker_namespace;
  release_name = create_release_name addon.name plan.name req.instance_id;
  addon_plan = plan;
  is_addon_bindable = addon.bindable;
  chart_overrides = req.parameters;
  addons_repository_url = addon.repository_url;
  instance_to_update = new_instance req namespace addon plan;
}

abbrev pub started_answer :
    ProvisionRequest → Namespace → Namespace → Addon → AddonPlan → OperationId → Answer
started_answer req broker_namespace namespace addon plan op_id = (
  record { async = true; operation_key = some op_id },
  some (started_input req broker_namespace namespace addon plan op_id),
)

module _ {S : Type 0} (b : Backend S) where
  -- `requestedParametersAreDifferent`: an instance that has only a hash of its parameters takes over
  -- those of the request.
  requested_parameters_are_different : InstanceId → RequestParameters → S → Result Bool × S
  unfolding parameters_differ
  requested_parameters_are_different i requested s = elim (b.get_instance i s) [
    | err e ↦ (err (wrap "while getting instance from storage" e), s)
    | ok inst ↦
        if not (is_empty inst.params_hash)
        then (let (r, s') =
              b.upsert_instance
                (record inst { params_hash = ""; provisioning_parameters = some requested }) s in
            (
              elim r [
                | err e ↦ err (wrap "while saving instance to storage" e)
                | ok replaced ↦ ok false
              ],
              s',
            ))
        else (ok (parameters_differ inst.provisioning_parameters requested.params), s)
  ]

  -- The branch for an instance that is provisioned already.
  provision_again : ProvisionRequest → Action S Answer
  unfolding requested_parameters_are_different
  provision_again req = do
    differ ←
        write internal_server_error "while comparing provisioning parameters"
          (requested_parameters_are_different req.instance_id (record { params = req.parameters }))
    require (not differ) conflict (plain "service instance exists with different parameters")
    pure (record { async = false; operation_key = none }, none)

  -- The plan of the request, out of the addon's.
  find_plan : Addon → String → Action S AddonPlan
  unfolding fail
  find_plan addon plan_id s = elim (lookup plan_id addon.plans) [
    | none ↦ fail bad_request (plain "addon does not contain requested plan") s
    | some plan ↦ (done plan, s)
  ]

  -- The branch for an instance that is neither provisioned nor being provisioned, from the look at
  -- the namespace on.
  provision_new : Result OperationId → Namespace → ProvisionRequest → Action S Answer
  unfolding get_namespace_from_context find_plan
  provision_new new_id broker_namespace req = do
    namespace ← get_namespace_from_context req.context
    addon ←
        read missing_is_bad_request "while getting addon"
          (b.get_addon_by_id broker_namespace req.service_id)
    instances ← read missing_is_bad_request "while getting instance collection" b.get_instances
    require (is_provisioning_allowed addon namespace instances) bad_request (
        plain
          "addon with flag 'provisionOnlyOnce' will be not provisioned because his instance already exist")
    op_id ← read (λ e. internal_server_error) "while generating operation ID" (λ s. new_id)
    write bad_request "while inserting instance operation to storage"
        (unit_result (b.insert_operation (new_operation req op_id)))
    plan ← find_plan addon req.plan_id
    exist ←
        write bad_request "while inserting instance to storage"
          (b.upsert_instance (new_instance req namespace addon plan))
    pure (started_answer req broker_namespace namespace addon plan op_id)

  -- The branch for an instance whose provisioning may be in progress.
  provision_unless_in_progress : Result OperationId → Namespace → ProvisionRequest → Action S Answer
  unfolding provision_new is_provisioning_in_progress
  provision_unless_in_progress new_id broker_namespace req = do
    (op_id, busy) ←
        read (λ e. internal_server_error) "while checking if instance provisioning is in progress"
          (λ s. is_provisioning_in_progress (b.get_operations req.instance_id s))
    if busy
        then pure (record { async = true; operation_key = some op_id }, none)
        else provision_new new_id broker_namespace req

  -- `Provision`; `new_id` is what `operationIDProvider` would return.
  unfoldable pub provision : Result OperationId → Namespace → ProvisionRequest → Action S Answer
  unfolding provision_unless_in_progress provision_again is_provisioned
  provision new_id broker_namespace req = do
    require req.accepts_incomplete bad_request (plain "asynchronous operation mode required")
    provisioned ←
        read (λ e. internal_server_error) "while checking if instance is already provisioned"
          (λ s. is_provisioned (b.get_operations req.instance_id s))
    if provisioned
        then provision_again req
        else provision_unless_in_progress new_id broker_namespace req
