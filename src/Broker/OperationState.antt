-- ===== src/Broker/OperationState.antt =====
-- internal/broker/operation_state.go: the state of an instance or a binding, read off the list of
-- its operations. The list, or an error, is what `GetAll` of the storage returned.
pub mod Busy
pub mod Order
use helm_broker.Common.{
  Bool, true, false, Option, some, none, Error, List, [], ◌∷◌, ◌&&◌, ◌==◌, if◌then◌else◌,
  is_not_found, wrap, Result, ok, err,
}
use helm_broker.Model.Operations.{
  OperationId, BindingId, InstanceOperation, BindOperation, is_in_progress, is_succeeded, is_create,
  is_remove,
}

abbrev pub is_created : InstanceOperation → Bool
is_created op = is_create op.type && is_succeeded op.state

abbrev pub is_removed : InstanceOperation → Bool
is_removed op = is_remove op.type && is_succeeded op.state

abbrev pub is_creating : InstanceOperation → Bool
is_creating op = is_create op.type && is_in_progress op.state

abbrev pub is_removing : InstanceOperation → Bool
is_removing op = is_remove op.type && is_in_progress op.state

-- The answer for an instance without operations, and the wrapped error otherwise.
abbrev or_default {ℓ} : {A : Type ℓ} → A → Error → Result A
or_default a e =
    if is_not_found e then ok a else err (wrap "while getting instance operations from storage" e)

-- The loop of `IsProvisioned`, from the result so far.
provisioned_from : Bool → List InstanceOperation → Bool
provisioned_from result [] = result
provisioned_from result (op ∷ ops) =
    let rest = provisioned_from (if is_created op then true else result) ops in
    if is_removed op then false else rest

-- `IsProvisioned`
unfoldable pub is_provisioned : Result (List InstanceOperation) → Result Bool
unfolding provisioned_from
is_provisioned (err e) = or_default false e
is_provisioned (ok ops) = ok (provisioned_from false ops)

-- The loops that stop at the first operation of a kind, with its id.
first_operation : (InstanceOperation → Bool) → List InstanceOperation → OperationId × Bool
first_operation p [] = ("", false)
first_operation p (op ∷ ops) =
    let rest = first_operation p ops in if p op then (op.operation_id, true) else rest

-- `IsProvisioningInProgress`
unfoldable pub is_provisioning_in_progress :
    Result (List InstanceOperation) → Result (OperationId × Bool)
unfolding first_operation
is_provisioning_in_progress (err e) = or_default ("", false) e
is_provisioning_in_progress (ok ops) = ok (first_operation is_creating ops)

-- The loop of `IsDeprovisioned`
any_removed : List InstanceOperation → Bool
any_removed [] = false
any_removed (op ∷ ops) = let rest = any_removed ops in if is_removed op then true else rest

-- `IsDeprovisioned`: here a missing instance is an error.
unfoldable pub is_deprovisioned : Result (List InstanceOperation) → Result Bool
unfolding any_removed
is_deprovisioned (err e) =
    if is_not_found e then err e else err (wrap "while getting instance operations from storage" e)
is_deprovisioned (ok ops) = ok (any_removed ops)

-- `IsDeprovisioningInProgress`
unfoldable pub is_deprovisioning_in_progress :
    Result (List InstanceOperation) → Result (OperationId × Bool)
unfolding first_operation
is_deprovisioning_in_progress (err e) = or_default ("", false) e
is_deprovisioning_in_progress (ok ops) = ok (first_operation is_removing ops)

abbrev pub is_bind_created : BindingId → BindOperation → Bool
is_bind_created b op = is_create op.type && (is_succeeded op.state && op.binding_id == b)

abbrev pub is_bind_removed : BindingId → BindOperation → Bool
is_bind_removed b op = is_remove op.type && (is_succeeded op.state && op.binding_id == b)

abbrev pub is_bind_creating : BindingId → BindOperation → Bool
is_bind_creating b op = is_create op.type && (is_in_progress op.state && op.binding_id == b)

-- The loop of `IsBound`, from the operation found so far.
bound_from : BindingId → Option BindOperation → List BindOperation → Option BindOperation
bound_from b result [] = result
bound_from b result (op ∷ ops) =
    let rest = bound_from b (if is_bind_created b op then some op else result) ops in
    if is_bind_removed b op then none else rest

-- `IsBound`: the operation that bound, if the binding is there.
unfoldable pub is_bound : BindingId → Result (List BindOperation) → Result (Option BindOperation)
unfolding bound_from
is_bound b (err e) =
    if is_not_found e then ok none else err (wrap "while getting bind operations from storage" e)
is_bound b (ok ops) = ok (bound_from b none ops)

first_binding : BindingId → List BindOperation → OperationId × Bool
first_binding b [] = ("", false)
first_binding b (op ∷ ops) =
    let rest = first_binding b ops in
    if is_bind_creating b op then (op.operation_id, true) else rest

-- `IsBindingInProgress`
unfoldable pub is_binding_in_progress :
    BindingId → Result (List BindOperation) → Result (OperationId × Bool)
unfolding first_binding
is_binding_in_progress b (err e) =
    if is_not_found e
    then ok ("", false)
    else err (wrap "while getting bind operations from storage" e)
is_binding_in_progress b (ok ops) = ok (first_binding b ops)
