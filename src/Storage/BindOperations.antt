-- ===== src/Storage/BindOperations.antt =====
-- internal/storage/driver/memory/entity_bind_operation.go: bind operations by instance and
-- operation id.
pub mod Exclusive
pub mod Views
use helm_broker.Common.{
  ℕ, String, Bool, true, false, Option, none, some, List, ◌||◌, if◌then◌else◌, is_empty, exists_in,
  Error, plain, wrap, active_operation_in_progress, not_found, Result, ok, err,
}
use helm_broker.Dict.{Dict, lookup, insert as set, delete, values, is_empty_dict}
use helm_broker.Dict.Nested.{inner, ensure}
use helm_broker.Model.Operations.{
  InstanceId, BindingId, OperationId, OperationState, BindOperation, is_in_progress,
}

abbrev pub BindOperations : Type 0
BindOperations = Dict (Dict BindOperation)

abbrev pub bind_op_in_progress : BindOperation → Bool
bind_op_in_progress op = is_in_progress op.state

-- The rest of `Insert`, once the instance has a map. A finished operation under the same id is
-- replaced.
insert_operation : ℕ → BindOperation → BindOperations → Option Error × BindOperations
insert_operation now bo s =
    let ops = inner bo.instance_id s in
    if exists_in bind_op_in_progress (values ops)
    then (some active_operation_in_progress, s)
    else (none, set bo.instance_id (set bo.operation_id (record bo { created_at = now }) ops) s)

-- `Insert`, at the time `now`
unfoldable pub insert : ℕ → BindOperation → BindOperations → Option Error × BindOperations
unfolding ensure insert_operation
insert now bo s = insert_operation now bo (ensure bo.instance_id s)

-- `Get`: the binding id has to be set, and is not compared with that of the operation.
unfoldable pub get : InstanceId → BindingId → OperationId → BindOperations → Result BindOperation
get i b op_id s =
    if is_empty i || (is_empty b || is_empty op_id)
    then err (plain "all parameters: instance, binding and operation id must be set")
    else elim (lookup i s) [
      | none ↦ err not_found
      | some ops ↦ elim (lookup op_id ops) [ none ↦ err not_found | some io ↦ ok io ]
    ]

-- `GetAll`; `order` is the order in which `range` visits the map.
unfoldable pub get_all :
    (List BindOperation → List BindOperation)
    → InstanceId
    → BindOperations
    → Result (List BindOperation)
get_all order i s =
    if is_empty i
    then err (plain "instance id cannot be empty")
    else elim (lookup i s) [ none ↦ err not_found | some ops ↦ ok (order (values ops)) ]

-- `UpdateStateDesc`: the store holds a pointer, so the write goes into the map.
unfoldable pub update_state_desc :
    InstanceId
    → BindingId
    → OperationId
    → OperationState
    → Option String
    → BindOperations
    → Option Error × BindOperations
unfolding get
update_state_desc i b op_id state desc s = elim (get i b op_id s) [
  | err e ↦ (some (wrap "while getting bind operation on UpdateStateDesc" e), s)
  | ok op ↦ (
    none,
    set i (set op_id (record op { state = state; state_description = desc }) (inner i s)) s,
  )
]

-- `UpdateState`
unfoldable pub update_state :
    InstanceId
    → BindingId
    → OperationId
    → OperationState
    → BindOperations
    → Option Error × BindOperations
unfolding get
update_state i b op_id state s = elim (get i b op_id s) [
  | err e ↦ (some (wrap "while getting bind operation on UpdateState" e), s)
  | ok op ↦ (
    none,
    set i (set op_id (record op { state = state; state_description = none }) (inner i s)) s,
  )
]

-- `Remove`
unfoldable pub remove :
    InstanceId → BindingId → OperationId → BindOperations → Option Error × BindOperations
unfolding get
remove i b op_id s = elim (get i b op_id s) [
  | err e ↦ (some (wrap "while getting bind operation on Remove" e), s)
  | ok _ ↦
      let ops = delete op_id (inner i s) in
      (none, if is_empty_dict ops then delete i s else set i ops s)
]
