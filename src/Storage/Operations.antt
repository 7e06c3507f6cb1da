-- ===== src/Storage/Operations.antt =====
-- internal/storage/driver/memory/entity_operation.go: operations by instance and operation id.
pub mod Invariant
pub mod Views
use helm_broker.Common.{
  ℕ, String, Bool, true, false, Option, none, some, List, [], ◌||◌, if◌then◌else◌, is_empty, found,
  exists_in, Error, plain, already_exists, active_operation_in_progress, not_found, Result, ok, err,
}
use helm_broker.Dict.{Dict, lookup, insert as set, delete, values, is_empty_dict}
use helm_broker.Dict.Nested.{inner, ensure}
use helm_broker.Model.Operations.{
  InstanceId, OperationId, OperationState, InstanceOperation, is_in_progress,
}

abbrev pub InstanceOperations : Type 0
InstanceOperations = Dict (Dict InstanceOperation)

-- The map of an instance's operations.
abbrev pub operations_of : InstanceId → InstanceOperations → Dict InstanceOperation
operations_of = inner

abbrev pub op_in_progress : InstanceOperation → Bool
op_in_progress op = is_in_progress op.state

-- The rest of `Insert`, from the look at the operation's own key on.
insert_operation : ℕ → InstanceOperation → InstanceOperations → Option Error × InstanceOperations
insert_operation now io s =
    let ops = operations_of io.instance_id s in
    if found (lookup io.operation_id ops)
    then (some already_exists, s)
    else if exists_in op_in_progress (values ops)
    then (some active_operation_in_progress, s)
    else (none, set io.instance_id (set io.operation_id (record io { created_at = now }) ops) s)

-- `Insert`, at the time `now`
unfoldable pub insert :
    ℕ → Option InstanceOperation → InstanceOperations → Option Error × InstanceOperations
unfolding ensure insert_operation
insert now none s = (some (plain "entity may not be nil"), s)
insert now (some io) s =
    if is_empty io.instance_id || is_empty io.operation_id
    then (some (plain "both instance and operation id must be set"), s)
    else insert_operation now io (ensure io.instance_id s)

-- `Get`
unfoldable pub get : InstanceId → OperationId → InstanceOperations → Result InstanceOperation
get i op_id s =
    if is_empty i || is_empty op_id
    then err (plain "both instance and operation id must be set")
    else elim (lookup i s) [
      | none ↦ err not_found
      | some ops ↦ elim (lookup op_id ops) [ none ↦ err not_found | some io ↦ ok io ]
    ]

-- `GetAll`; `order` is the order in which `range` visits the map.
unfoldable pub get_all :
    (List InstanceOperation → List InstanceOperation)
    → InstanceId
    → InstanceOperations
    → Result (List InstanceOperation)
get_all order i s = elim (lookup i s) [ none ↦ err not_found | some ops ↦ ok (order (values ops)) ]

-- `UpdateStateDesc`: the store holds a pointer, so the write goes into the map.
unfoldable pub update_state_desc :
    InstanceId
    → OperationId
    → OperationState
    → Option String
    → InstanceOperations
    → Option Error × InstanceOperations
unfolding get
update_state_desc i op_id state desc s = elim (get i op_id s) [
  | err e ↦ (some e, s)
  | ok op ↦ (
    none,
    set i (set op_id (record op { state = state; state_description = desc }) (operations_of i s)) s,
  )
]

-- `UpdateState`
unfoldable pub update_state :
    InstanceId
    → OperationId
    → OperationState
    → InstanceOperations
    → Option Error × InstanceOperations
unfolding get
update_state i op_id state s = elim (get i op_id s) [
  | err e ↦ (some e, s)
  | ok op ↦ (
    none,
    set i (set op_id (record op { state = state; state_description = none }) (operations_of i s)) s,
  )
]

-- `Remove`: the last operation of an instance takes the instance's map with it.
unfoldable pub remove :
    InstanceId → OperationId → InstanceOperations → Option Error × InstanceOperations
unfolding get
remove i op_id s = elim (get i op_id s) [
  | err e ↦ (some e, s)
  | ok _ ↦
      let ops = delete op_id (operations_of i s) in
      (none, if is_empty_dict ops then delete i s else set i ops s)
]
