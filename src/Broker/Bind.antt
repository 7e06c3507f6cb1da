-- ===== src/Broker/Bind.antt =====
-- internal/broker/bind.go: the `Bind` handler, whose task is in Resolving, and the reads of a
-- binding. For a binding that exists the handler starts the task and then reads what the task is to
-- store, with no wait between; so `bind` stops there, and `finish_bind` is the rest: the task may run
-- before it or after it.
pub mod Keeps
pub mod Resolving
pub mod Missing
pub mod Credentials
use Prim.Native.String.{◌++◌}
use helm_broker.Common.{
  String, Bool, true, false, not, ◌&&◌, ◌||◌, Option, none, some, if◌then◌else◌, is_empty, Error,
  plain, wrap, is_not_found, Result, ok, err, error_text,
}
use helm_broker.Dict.{lookup}
use helm_broker.Model.Addons.{Addon, AddonPlan, Namespace}
use helm_broker.Model.Charts.{Chart}
use helm_broker.Model.Instances.{ServiceInstance, InstanceBindData, InstanceCredentials}
use helm_broker.Model.Operations.{
  InstanceId, BindingId, OperationId, OperationState, BindOperation, in_progress, succeeded,
  failed as operation_failed, create,
}
use helm_broker.Broker.Backend.{Backend}
use helm_broker.Broker.Action.{
  Outcome, done, Action, pure, fail, read, write, require, unit_result, ◌>>=◌, ◌>>◌,
  missing_is_bad_request, bad_request, not_found_status, internal_server_error,
}
use helm_broker.Broker.Deprovision.{pass_not_found}
use helm_broker.Broker.LastOperation.{LastOperationResponse, key_or_empty}
use helm_broker.Broker.OperationState.{is_bound, is_binding_in_progress}

pub record BindRequest : Type 0 where
  pub instance_id : InstanceId
  pub binding_id : BindingId
  pub service_id : String
  pub plan_id : String
  pub accepts_incomplete : Bool
  -- `len(req.Parameters) > 0`
  pub has_parameters : Bool

-- `bindingInput`, what the task is started with.
pub record BindingInput : Type 0 where
  pub broker_namespace : Namespace
  pub instance' : ServiceInstance
  pub binding_id : BindingId
  pub operation_id : OperationId
  pub addon_plan : AddonPlan
  pub is_addon_bindable : Bool

pub record BindResponse : Type 0 where
  pub async : Bool
  pub operation_key : Option OperationId
  pub credentials : Option InstanceCredentials

-- How far the handler came: it has answered, and started a task or not; or it has started a task and
-- is about to read the bind data.
pub data BindProgress : Type 0 where
  answered : BindResponse → Option BindingInput → BindProgress
  reading : BindingInput → BindProgress

-- `validateBindRequest`
unfoldable pub validate_bind_request : InstanceId → BindingId → String → String → Option Error
validate_bind_request i j service_id plan_id =
    if is_empty i
    then some (plain "instance id must not be empty")
    else if is_empty j
    then some (plain "binding id must not be empty")
    else if is_empty service_id
    then some (plain "service id must not be empty")
    else if is_empty plan_id
    then some (plain "service plan id must not be empty")
    else none

-- `prepareBindOperation`
abbrev pub new_bind_operation : BindRequest → OperationId → BindOperation
new_bind_operation req op_id = record {
  instance_id = req.instance_id;
  binding_id = req.binding_id;
  operation_id = op_id;
  type = create;
  state = in_progress;
  state_description = none;
  created_at = 0;
}

module _ {S : Type 0} (b : Backend S) where
  find_bind_plan : Addon → String → Action S AddonPlan
  unfolding fail
  find_bind_plan addon plan_id s = elim (lookup plan_id addon.plans) [
    | none ↦ fail bad_request (plain "addon does not contain requested plan") s
    | some plan ↦ (done plan, s)
  ]

  -- `prepareBindInput`
  prepare_bind_input : Namespace → BindRequest → OperationId → Action S BindingInput
  unfolding find_bind_plan
  prepare_bind_input broker_namespace req op_id = do
    inst ←
        read missing_is_bad_request "while getting instance from storage"
          (b.get_instance req.instance_id)
    addon ←
        read missing_is_bad_request "while getting addon from storage"
          (b.get_addon_by_id broker_namespace req.service_id)
    plan ← find_bind_plan addon req.plan_id
    pure (record {
      broker_namespace = broker_namespace;
      instance' = inst;
      binding_id = req.binding_id;
      operation_id = op_id;
      addon_plan = plan;
      is_addon_bindable = addon.bindable;
    })

  -- The branch for a binding that neither exists nor is being created.
  bind_new : Result OperationId → Namespace → BindRequest → Action S BindProgress
  unfolding prepare_bind_input
  bind_new new_id broker_namespace req = do
    op_id ← read (λ e. internal_server_error) "while preparing bind operation" (λ s. new_id)
    write internal_server_error "while inserting instance operation to storage"
        (unit_result (b.insert_bind_operation (new_bind_operation req op_id)))
    input ← prepare_bind_input broker_namespace req op_id
    pure (
        answered (record { async = true; operation_key = some op_id; credentials = none })
          (some input))

  -- The branch for a binding that exists: the operation that bound it is run again.
  bind_again : Namespace → BindRequest → BindOperation → Action S BindProgress
  unfolding prepare_bind_input
  bind_again broker_namespace req op = do
    input ← prepare_bind_input broker_namespace req op.operation_id
    pure (reading input)

  -- From the look for the binding on.
  bind_unless_in_progress : Result OperationId → Namespace → BindRequest → Action S BindProgress
  unfolding bind_new bind_again is_bound
  bind_unless_in_progress new_id broker_namespace req = do
    bound ←
        read (λ e. internal_server_error)
          "while checking if service binding for service instance already exists"
          (λ s. is_bound req.binding_id (b.get_bind_operations req.instance_id s))
    elim bound [
      | none ↦ bind_new new_id broker_namespace req
      | some op ↦ bind_again broker_namespace req op
    ]

  -- From the look at the operations on.
  bind_valid : Result OperationId → Namespace → BindRequest → Action S BindProgress
  unfolding bind_unless_in_progress is_binding_in_progress
  bind_valid new_id broker_namespace req = do
    (op_id, busy) ←
        read (λ e. internal_server_error) "while checking if service binding is being created"
          (λ s. is_binding_in_progress req.binding_id (b.get_bind_operations req.instance_id s))
    if busy
        then pure (
            answered (record { async = true; operation_key = some op_id; credentials = none }) none)
        else bind_unless_in_progress new_id broker_namespace req

  -- `Bind`, up to its answer or to the read of the bind data.
  unfoldable pub bind : Result OperationId → Namespace → BindRequest → Action S BindProgress
  unfolding bind_valid validate_bind_request
  bind new_id broker_namespace req = do
    require (not req.has_parameters) bad_request
        (plain "helm-broker does not support configuration options for the service binding")
    require req.accepts_incomplete bad_request (plain "asynchronous operation mode required")
    elim (validate_bind_request req.instance_id req.binding_id req.service_id req.plan_id) [
      | some e ↦ fail bad_request (wrap "while validating bind request" e)
      | none ↦ bind_valid new_id broker_namespace req
    ]

  -- A removal of bind data whose error is only logged.
  abbrev drop_bind_data : InstanceId → S → S
  drop_bind_data i s = (b.remove_bind_data i s).1

  -- The rest of `Bind` for a binding that exists.
  unfoldable pub finish_bind : InstanceId → Action S BindResponse
  finish_bind i s = elim (b.get_bind_data i s) [
    | err e ↦ fail bad_request (wrap "while getting bind data from storage" e) s
    | ok ibd ↦ (
      done (record { async = false; operation_key = none; credentials = some ibd.credentials }),
      drop_bind_data i s,
    )
  ]

  -- `GetBindData`
  unfoldable pub get_bind_data : InstanceId → BindingId → Action S InstanceCredentials
  unfolding is_binding_in_progress
  get_bind_data i j = do
    (op_id, busy) ←
        read (λ e. internal_server_error) "while checking if service binding is being created"
          (λ s. is_binding_in_progress j (b.get_bind_operations i s))
    require (not busy) not_found_status (plain "service binding is in progress")
    ibd ← read (λ e. not_found_status) "while getting bind data from storage" (b.get_bind_data i)
    λ s. (done ibd.credentials, drop_bind_data i s)

  -- `GetLastBindOperation`
  unfoldable pub get_last_bind_operation :
      InstanceId → BindingId → Option OperationId → S → Result LastOperationResponse
  get_last_bind_operation i j op_key s =
      if is_empty i || (is_empty j || is_empty (key_or_empty op_key))
      then err (plain "all parameters: instance, binding and operation id must be set")
      else elim (b.get_bind_operation i j (key_or_empty op_key) s) [
        | err e ↦ err (pass_not_found "while getting bind operation" e)
        | ok op ↦ ok (record { state = op.state; description = op.state_description })
      ]
