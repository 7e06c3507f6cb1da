-- ===== src/Broker/Provision/Repeat.antt =====
-- A request for an instance that is being provisioned, on the in-memory driver.
use mathlib.Core.List.{Perm}
use helm_broker.Common.{◌≡◌, ◌∙◌, true, false, none, some, List, Result, ok}
use helm_broker.Dict.Nested.{find}
use helm_broker.Model.Addons.{Namespace}
use helm_broker.Model.Operations.{OperationId, InstanceOperation}
use helm_broker.Broker.Action.{done, pure}
use helm_broker.Broker.Action.Runs.{read-ok, require-true}
use helm_broker.Broker.OperationState.{is_creating, is_provisioned}
use helm_broker.Broker.OperationState.Busy.{is_provisioning_in_progress-find}
use helm_broker.Broker.Memory.{Stores, Driver, memory}
use helm_broker.Broker.Provision.{ProvisionRequest, provision_unless_in_progress, provision}
use helm_broker.Broker.Steps.{Reachable, Reachable-IsSafe}

-- In every reachable state, a request that accepts an asynchronous answer, for an instance that is not
-- provisioned and has a creation in progress, is answered with the id of that creation: it starts no
-- task and changes nothing, whatever the order in which the map of operations is visited.
pub provision-repeat :
    (d : Driver)
    → ((ops : List InstanceOperation) → Perm ops (d.operation_order ops))
    → (new_id : Result OperationId) (broker_namespace : Namespace) (req : ProvisionRequest)
      (k : OperationId) {s : Stores} {op : InstanceOperation}
    → Reachable s
    → req.accepts_incomplete ≡ true
    → is_provisioned ((memory d).get_operations req.instance_id s) ≡ ok false
    → find req.instance_id k s.operations ≡ some op
    → is_creating op ≡ true
    → provision (memory d) new_id broker_namespace req s
      ≡ (done (record { async = true; operation_key = some k }, none), s)
unfolding provision provision_unless_in_progress pure
provision-repeat d any new_id broker_namespace req k {s} reachable accepts fresh stored creating =
    require-true _ s _ _ accepts
    ∙ read-ok _ s _ _ _ fresh
    ∙ read-ok _ s _ _ _ (
        is_provisioning_in_progress-find d.operation_order any req.instance_id k s.operations
          (Reachable-IsSafe reachable).operations stored creating)
