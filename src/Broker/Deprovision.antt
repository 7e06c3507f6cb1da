-- ===== src/Broker/Deprovision.antt =====
-- internal/broker/deprovision.go: the `Deprovision` handler, which is one step, and the task that it
-- starts. Its errors are plain Go errors; the HTTP layer picks the status.
pub mod Keeps
pub mod Task
use Prim.Native.String.{◌++◌}
use helm_broker.Common.{
  String, Bool, true, false, Option, none, some, if◌then◌else◌, Error, plain, wrap, wrap_result,
  is_not_found, Result, ok, err, error_text,
}
use helm_broker.Model.Values.{no_fields}
use helm_broker.Model.Addons.{Namespace}
use helm_broker.Model.Instances.{ServiceInstance}
use helm_broker.Model.Operations.{
  InstanceId, OperationId, OperationState, InstanceOperation, in_progress, succeeded, failed,
  remove,
}
use helm_broker.Broker.Backend.{Backend}
use helm_broker.Broker.OperationState.{is_deprovisioned, is_deprovisioning_in_progress}

pub record DeprovisionRequest : Type 0 where
  pub instance_id : InstanceId
  pub accepts_incomplete : Bool

pub record DeprovisionResponse : Type 0 where
  pub async : Bool
  pub operation_key : Option OperationId

-- What the task is started with: the instance, by value, and the id of the operation.
pub record DeprovisioningInput : Type 0 where
  pub instance' : ServiceInstance
  pub operation_id : OperationId

abbrev pub Answer : Type 0
Answer = DeprovisionResponse × Option DeprovisioningInput

-- `NotFound` errors are passed on as they are, and the others wrapped.
abbrev pub pass_not_found : String → Error → Error
pass_not_found message e = if is_not_found e then e else wrap message e

abbrev pub removal_operation : InstanceId → OperationId → InstanceOperation
removal_operation i op_id = record {
  instance_id = i;
  operation_id = op_id;
  type = remove;
  state = in_progress;
  state_description = none;
  provisioning_parameters = some (record { params = some no_fields });
  created_at = 0;
}

module _ {S : Type 0} (b : Backend S) where
  -- From the insertion of the operation on.
  start_removal : ServiceInstance → DeprovisionRequest → OperationId → S → Result Answer × S
  start_removal inst req op_id s =
      let (e, s') = b.insert_operation (removal_operation req.instance_id op_id) s in
      elim e [
        | some e' ↦ (err (wrap "while inserting instance operation to storage" e'), s')
        | none ↦ (
          ok (
            record { async = true; operation_key = some op_id },
            some (record { instance' = inst; operation_id = op_id }),
          ),
          s',
        )
      ]

  -- From the generation of the operation's id on.
  deprovision_new : Result OperationId → DeprovisionRequest → S → Result Answer × S
  unfolding start_removal
  deprovision_new new_id req s = elim new_id [
    | err e ↦ (err (wrap "while generating ID for operation" e), s)
    | ok op_id ↦ elim (b.get_instance req.instance_id s) [
      | err e ↦ (err (pass_not_found "while getting instance" e), s)
      | ok inst ↦ start_removal inst req op_id s
    ]
  ]

  -- From the check for a removal in progress on.
  deprovision_unless_in_progress : Result OperationId → DeprovisionRequest → S → Result Answer × S
  unfolding deprovision_new is_deprovisioning_in_progress
  deprovision_unless_in_progress new_id req s =
      elim (is_deprovisioning_in_progress (b.get_operations req.instance_id s)) [
        | err e ↦ (err (pass_not_found "while checking if instance is being deprovisioned" e), s)
        | ok answer ↦
            if answer.1
            then (ok (record { async = true; operation_key = some answer.0 }, none), s)
            else deprovision_new new_id req s
      ]

  -- `Deprovision`
  unfoldable pub deprovision : Result OperationId → DeprovisionRequest → S → Result Answer × S
  unfolding deprovision_unless_in_progress is_deprovisioned
  deprovision new_id req s =
      if req.accepts_incomplete
      then elim (is_deprovisioned (b.get_operations req.instance_id s)) [
        | err e ↦ (err (pass_not_found "while checking if instance is already deprovisioned" e), s)
        | ok state ↦
            if state
            then (ok (record { async = false; operation_key = none }, none), s)
            else deprovision_unless_in_progress new_id req s
      ]
      else (err (plain "asynchronous operation mode required"), s)

-- `helmDeleter`
pub record HelmDeleter : Type 0 where
  pub delete_release : String → Namespace → Option Error
  pub is_release_not_found : Error → Bool

-- `errors.Wrapf(err, "while deleting helm release %q", …)`, for a name with nothing to escape.
abbrev pub delete_error : String → Error → Error
delete_error name e = wrap ("while deleting helm release \"" ++ (name ++ "\"")) e

-- The errors that stop the task: not the ones that say that the thing is gone already.
abbrev pub unless_gone : (Error → Bool) → Option Error → Option Error
unless_gone gone none = none
unless_gone gone (some e) = if gone e then none else some e

abbrev wrap_error : String → Option Error → Option Error
wrap_error message none = none
wrap_error message (some e) = some (wrap message e)

abbrev pub deprovision_state : Option Error → OperationState
deprovision_state none = succeeded
deprovision_state (some e) = failed

abbrev pub deprovision_description : Option Error → String
deprovision_description none = "deprovisioning succeeded"
deprovision_description (some e) = "deprovisioning failed on error: " ++ error_text e

module _ {S : Type 0} (b : Backend S) (helm : HelmDeleter) where
  -- The removal of the instance entity.
  remove_entity : ServiceInstance → S → Option Error × S
  remove_entity inst s =
      let (e, s') = b.remove_instance inst.id s in
      (wrap_error "while removing instance entity from storage" (unless_gone is_not_found e), s')

  -- The removal of the bind data, and what comes after it.
  remove_bind_data : ServiceInstance → S → Option Error × S
  unfolding remove_entity
  remove_bind_data inst s =
      let (e, s') = b.remove_bind_data inst.id s in
      elim (unless_gone is_not_found e) [
        | some e' ↦ (some (wrap "while removing instance bind data from storage" e'), s')
        | none ↦ remove_entity inst s'
      ]

  -- `fDo`
  remove_release : ServiceInstance → S → Option Error × S
  unfolding remove_bind_data
  remove_release inst s =
      elim (unless_gone helm.is_release_not_found
        (helm.delete_release inst.release_name inst.namespace)) [
          | some e ↦ (some (delete_error inst.release_name e), s)
          | none ↦ remove_bind_data inst s
        ]

  -- `do`, the task: an error of its last write is only logged.
  unfoldable pub do_deprovision : DeprovisioningInput → S → S
  unfolding remove_release
  do_deprovision input s =
      let (e, s') = remove_release input.instance' s in
      (b.update_operation input.instance'.id input.operation_id (deprovision_state e)
        (some (deprovision_description e)) s').1
