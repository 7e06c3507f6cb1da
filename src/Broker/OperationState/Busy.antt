-- ===== src/Broker/OperationState/Busy.antt =====
-- The operation in progress that the loops find is the one that the store holds.
use mathlib.Core.List.{Perm}
use helm_broker.Common.{
  ◌≤◌, ◌≡◌, ap, sym, ◌∙◌, true, some, List, [], ◌∷◌, arith, ◌==◌, count_if, ok, Option-cases,
  Bool-cases, inl, inr,
}
use helm_broker.Dict.{Dict, lookup, values}
use helm_broker.Dict.Nested.{inner, find}
use helm_broker.Dict.Counting.{weigh-lookup-le}
use helm_broker.Model.Operations.{InstanceId, OperationId, InstanceOperation}
use helm_broker.Storage.Operations.{InstanceOperations, op_in_progress, get_all}
use helm_broker.Storage.Operations.Invariant.{IsValid, IsTable, operations_of-IsTable}
use helm_broker.Broker.OperationState.{is_creating, first_operation, is_provisioning_in_progress}
use helm_broker.Broker.OperationState.Order.{is_provisioning_in_progress-perm}

first_operation-lookup :
    (k : OperationId) (ops : Dict InstanceOperation) {op : InstanceOperation}
    → lookup k ops ≡ some op
    → is_creating op ≡ true
    → count_if op_in_progress (values ops) ≤ 1
    → first_operation is_creating (values ops) ≡ (op.operation_id, true)
unfolding first_operation count_if values lookup
first_operation-lookup k [] h c one = absurd (ground arith)
first_operation-lookup k ((j, v) ∷ ops) {op} h c one = elim (Bool-cases (j == k)) [
  | inl e ↦ ground arith
  | inr e ↦
      ground (arith, first_operation-lookup k ops {op = op}, weigh-lookup-le op_in_progress k ops)
]

none_found : (k : OperationId) {op : InstanceOperation} → lookup k [] ≡ some op → ⊥
unfolding lookup
none_found k h = ground arith

-- In a valid store a creation in progress is the operation that `IsProvisioningInProgress` answers with,
-- whatever the order in which the map is visited.
pub is_provisioning_in_progress-find :
    (order : List InstanceOperation → List InstanceOperation)
    → ((ops : List InstanceOperation) → Perm ops (order ops))
    → (i : InstanceId) (k : OperationId) (s : InstanceOperations) {op : InstanceOperation}
    → IsValid s
    → find i k s ≡ some op
    → is_creating op ≡ true
    → is_provisioning_in_progress (get_all order i s) ≡ ok (k, true)
unfolding get_all is_provisioning_in_progress
is_provisioning_in_progress-find order any i k s {op} v stored creating =
    elim (Option-cases (lookup i s)) [
      | inl e ↦ absurd (none_found k (rw (e, inner) at stored))
      | inr (ops, e) ↦
          let t = operations_of-IsTable i v in
          let found_op : lookup k ops ≡ some op = rw (e, inner) at stored in
          let t' : IsTable i ops = rw (e, inner) at t in
          rw (e, get_all, is_provisioning_in_progress)
            (sym (is_provisioning_in_progress-perm t'.exclusive (any (values ops)))
              ∙ ap ok (first_operation-lookup k ops found_op creating t'.exclusive)
              ∙ ap (λ x. ok (x, true)) (t'.keyed k op found_op).1)
    ]
