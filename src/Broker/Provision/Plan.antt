-- ===== src/Broker/Provision/Plan.antt =====
-- A request for a plan that the addon does not have, on the in-memory driver.
use mathlib.Core.List.{Perm}
use mathlib.Core.Path.{subst}
use helm_broker.Common.{
  String, ◌≡◌, refl, ap, ◌∙◌, Bool, true, false, none, some, List, Result, ok, plain,
}
use helm_broker.Dict.{lookup}
use helm_broker.Dict.Nested.{find}
use helm_broker.Model.Values.{str, lookup_field}
use helm_broker.Model.Addons.{Addon, AddonPlan, Namespace}
use helm_broker.Model.Instances.{ServiceInstance, is_provisioning_allowed}
use helm_broker.Model.Operations.{OperationId, InstanceOperation, create, in_progress}
use helm_broker.Storage.Operations
use helm_broker.Storage.Operations.Views as OperationViews
use helm_broker.Broker.Action.{Outcome, done, failed, Action, ◌>>=◌, bad_request}
use helm_broker.Broker.Action.Runs.{read-ok, require-true, unit_write-ok}
use helm_broker.Broker.OperationState.{is_provisioned, is_provisioning_in_progress}
use helm_broker.Broker.Memory.{Stores, Driver, memory}
use helm_broker.Broker.Steps.{Reachable, goes, provisions}
use helm_broker.Broker.Provision.Repeat.{provision-repeat}
use helm_broker.Broker.Provision.{
  ProvisionRequest, Answer, get_namespace_from_context, assert_text, find_plan, new_operation,
  provision_new, provision_unless_in_progress, provision,
}

abbrev no_plan : Outcome Answer
no_plan = failed (record {
  status_code = bad_request;
  error_message = plain "addon does not contain requested plan";
})

module _ (d : Driver) where
  -- The stores after the insertion of the operation.
  abbrev inserted : ProvisionRequest → OperationId → Stores → Stores
  inserted req op_id s = ((memory d).insert_operation (new_operation req op_id) s).1

  namespace-ok :
      {B : Type 0} (req : ProvisionRequest) (f : Namespace → Action Stores B) (s : Stores)
      {namespace : Namespace}
      → lookup_field "namespace" req.context ≡ some (str namespace)
      → (get_namespace_from_context req.context >>= f) s ≡ f namespace s
  unfolding get_namespace_from_context ◌>>=◌ assert_text
  namespace-ok req f s e = rw (e, get_namespace_from_context) refl

  plan-none :
      (addon : Addon) (plan_id : String) (f : AddonPlan → Action Stores Answer) (t : Stores)
      → lookup plan_id addon.plans ≡ none
      → (find_plan (memory d) addon plan_id >>= f) t ≡ (no_plan, t)
  unfolding find_plan ◌>>=◌
  plan-none addon plan_id f t e = rw (e, find_plan) refl

  -- The answer to a request for a plan that the addon does not have, and its operation.
  provision-no_plan :
      (op_id : OperationId) (broker_namespace : Namespace) (req : ProvisionRequest) (s : Stores)
      {addon : Addon} {namespace : Namespace} {instances : List ServiceInstance}
      {answer : OperationId × Bool}
      → req.accepts_incomplete ≡ true
      → is_provisioned ((memory d).get_operations req.instance_id s) ≡ ok false
      → is_provisioning_in_progress ((memory d).get_operations req.instance_id s) ≡ ok answer
      → answer.1 ≡ false
      → lookup_field "namespace" req.context ≡ some (str namespace)
      → (memory d).get_addon_by_id broker_namespace req.service_id s ≡ ok addon
      → (memory d).get_instances s ≡ ok instances
      → is_provisioning_allowed addon namespace instances ≡ true
      → (Operations.insert d.now (some (new_operation req op_id)) s.operations).0 ≡ none
      → lookup req.plan_id addon.plans ≡ none
      → (provision (memory d) (ok op_id) broker_namespace req s ≡ (no_plan, inserted req op_id s))
        × (find req.instance_id op_id (inserted req op_id s).operations
            ≡ some (record {
              instance_id = req.instance_id;
              operation_id = op_id;
              type = create;
              state = in_progress;
              state_description = none;
              provisioning_parameters = some (record { params = req.parameters });
              created_at = d.now;
            }))
  unfolding provision provision_unless_in_progress provision_new
  provision-no_plan op_id broker_namespace req s {addon} {answer = answer} accepts fresh idle idle'
        ns found_addon insts allowed ins missing =
      (
        require-true _ s _ _ accepts
            ∙ read-ok _ s _ _ _ fresh
            ∙ read-ok _ s _ _ _ idle
            ∙ rw idle' (
                namespace-ok req _ s ns
                ∙ read-ok _ s _ _ _ found_addon
                ∙ read-ok _ s _ _ _ insts
                ∙ require-true _ s _ _ allowed
                ∙ read-ok _ s _ _ _ refl
                ∙ unit_write-ok _ s _ _ _ {t = inserted req op_id s}
                    (λ i. (ins i, inserted req op_id s))
                ∙ plan-none addon req.plan_id _ (inserted req op_id s) missing),
        (OperationViews.insert-eq-none d.now (new_operation req op_id) s.operations
            (λ i. (ins i, (inserted req op_id s).operations))).2,
      )

  -- In a reachable state, a request that passes every check up to the insertion of its operation, for a plan that the
  -- addon does not have, is answered with 400 and starts no task, but its operation is stored, in progress; and a
  -- second request for the instance, whatever its plan and its parameters are, is then answered with the id of this
  -- operation and starts no task either, if no earlier operation makes the instance provisioned.
  pub provision-provision_no_plan :
      ((ops : List InstanceOperation) → Perm ops (d.operation_order ops))
      → (op_id : OperationId) (broker_namespace : Namespace) (req again : ProvisionRequest)
        (new_id : Result OperationId) (s : Stores) {addon : Addon} {namespace : Namespace}
        {instances : List ServiceInstance} {answer : OperationId × Bool}
      → Reachable s
      → req.accepts_incomplete ≡ true
      → is_provisioned ((memory d).get_operations req.instance_id s) ≡ ok false
      → is_provisioning_in_progress ((memory d).get_operations req.instance_id s) ≡ ok answer
      → answer.1 ≡ false
      → lookup_field "namespace" req.context ≡ some (str namespace)
      → (memory d).get_addon_by_id broker_namespace req.service_id s ≡ ok addon
      → (memory d).get_instances s ≡ ok instances
      → is_provisioning_allowed addon namespace instances ≡ true
      → (Operations.insert d.now (some (new_operation req op_id)) s.operations).0 ≡ none
      → lookup req.plan_id addon.plans ≡ none
      → again.accepts_incomplete ≡ true
      → again.instance_id ≡ req.instance_id
      → is_provisioned ((memory d).get_operations again.instance_id (inserted req op_id s))
        ≡ ok false
      → let t = (provision (memory d) (ok op_id) broker_namespace req s).1 in
        ((provision (memory d) (ok op_id) broker_namespace req s).0
          ≡ failed (record {
            status_code = 400;
            error_message = plain "addon does not contain requested plan";
          }))
        × (find req.instance_id op_id t.operations
            ≡ some (record {
              instance_id = req.instance_id;
              operation_id = op_id;
              type = create;
              state = in_progress;
              state_description = none;
              provisioning_parameters = some (record { params = req.parameters });
              created_at = d.now;
            }))
        × (provision (memory d) new_id broker_namespace again t
            ≡ (done (record { async = true; operation_key = some op_id }, none), t))
  provision-provision_no_plan any op_id broker_namespace req again new_id s reachable accepts fresh
        idle idle' ns found_addon insts allowed ins missing accepts' same fresh' =
      let (run, stored) =
        provision-no_plan op_id broker_namespace req s accepts fresh idle idle' ns found_addon insts
          allowed ins missing in
      let next : Reachable (inserted req op_id s) =
        subst Reachable (ap (λ r. r.1) run)
          (goes reachable (provisions d (ok op_id) broker_namespace req s)) in
      rw run (
        refl,
        stored,
        provision-repeat d any new_id broker_namespace again op_id next accepts' fresh'
            (ap (λ i. find i op_id (inserted req op_id s).operations) same ∙ stored) refl,
      )
