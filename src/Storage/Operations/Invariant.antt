-- ===== src/Storage/Operations/Invariant.antt =====
-- The invariant of the store of operations: an instance has at most one operation in progress, and
-- an operation stands under its own instance and operation id.
use helm_broker.Common.{
  ℕ, ◌≤◌, String, ◌≡◌, refl, false, Option, none, some, [], arith, ◌||◌, count_if, exists_in,
  Bool-cases, Option-cases, inl, inr, is_empty, found, Result-cases, ok, ◌∙◌, count-eq-zero,
}
use helm_broker.Dict.{Dict, lookup, insert as set, delete, values, is_empty_dict}
use helm_broker.Dict.Entries.{
  Entries, HasDistinctKeys, insert-HasDistinctKeys, delete-HasDistinctKeys, Entries-insert,
  Entries-delete,
}
use helm_broker.Dict.Nested.{inner, ensure}
use helm_broker.Dict.Counting.{count-insert, count-delete-le}
use helm_broker.Model.Operations.{
  InstanceId, OperationId, OperationState, InstanceOperation, is_in_progress,
}
use helm_broker.Storage.Operations.{
  InstanceOperations, operations_of, op_in_progress, insert_operation, insert, get,
  update_state_desc, update_state, remove,
}

abbrev pub IsKeyed : InstanceId → OperationId → InstanceOperation → Type 0
IsKeyed i k op = (op.instance_id ≡ i) × (op.operation_id ≡ k)

-- The map of one instance's operations.
pub record IsTable (i : InstanceId) (ops : Dict InstanceOperation) : Type 0 where
  pub distinct : HasDistinctKeys ops
  pub keyed : Entries (IsKeyed i) ops
  pub exclusive : count_if op_in_progress (values ops) ≤ 1

pub record IsValid (s : InstanceOperations) : Type 0 where
  pub distinct : HasDistinctKeys s
  pub tables : Entries IsTable s

empty-IsTable : (i : InstanceId) → IsTable i []
unfolding values count_if lookup
empty-IsTable i = record { distinct = tt; keyed = λ k v e. cc; exclusive = omega arith }

pub empty-IsValid : IsValid []
unfolding lookup
empty-IsValid = record { distinct = tt; tables = λ k v e. absurd (ground arith) }

pub operations_of-IsTable :
    (i : InstanceId) {s : InstanceOperations} → IsValid s → IsTable i (operations_of i s)
operations_of-IsTable i {s} v = elim (Option-cases (lookup i s)) [
  | inl e ↦ rw (e, inner) (empty-IsTable i)
  | inr (ops, e) ↦ rw (e, inner) (v.tables i ops e)
]

-- A write of an operation under its own ids that leaves at most one in progress.
set-IsTable :
    (i : InstanceId) (op : InstanceOperation) {ops : Dict InstanceOperation}
    → op.instance_id ≡ i
    → count_if op_in_progress (values (set op.operation_id op ops)) ≤ 1
    → IsTable i ops
    → IsTable i (set op.operation_id op ops)
set-IsTable i op {ops} e c t = record {
  distinct = insert-HasDistinctKeys op.operation_id op ops t.distinct;
  keyed = Entries-insert (IsKeyed i) op.operation_id op ops (e, refl) t.keyed;
  exclusive = c;
}

set-IsValid :
    (i : InstanceId) (ops : Dict InstanceOperation) {s : InstanceOperations}
    → IsTable i ops
    → IsValid s
    → IsValid (set i ops s)
set-IsValid i ops {s} t v = record {
  distinct = insert-HasDistinctKeys i ops s v.distinct;
  tables = Entries-insert IsTable i ops s t v.tables;
}

ensure-IsValid : (i : InstanceId) {s : InstanceOperations} → IsValid s → IsValid (ensure i s)
unfolding ensure
ensure-IsValid i {s} v = elim (Bool-cases (found (lookup i s))) [
  | inl e ↦ rw e v
  | inr e ↦ rw e (set-IsValid i [] (empty-IsTable i) v)
]

insert_operation-IsValid :
    (now : ℕ) (io : InstanceOperation) {s : InstanceOperations}
    → IsValid s
    → IsValid (insert_operation now io s).1
unfolding insert_operation
insert_operation-IsValid now io {s} v = elim (Bool-cases (found (lookup io.operation_id ops))) [
  | inl e ↦ rw e v
  | inr e ↦ elim (Bool-cases (exists_in op_in_progress (values ops))) [
    | inl busy ↦ rw (e, busy) v
    | inr idle ↦
        rw (e, idle)
          (set-IsValid io.instance_id (set io.operation_id (record io { created_at = now }) ops)
            (set-IsTable io.instance_id (record io { created_at = now }) refl
              (ground (
                arith,
                count-insert op_in_progress io.operation_id (record io { created_at = now }) ops,
                count-eq-zero op_in_progress (values ops) idle,
              ))
              (operations_of-IsTable io.instance_id v))
            v)
  ]
]
  where
    ops : Dict InstanceOperation
    ops = operations_of io.instance_id s

-- `Insert` keeps the invariant, whether it stores the operation or returns an error: each instance has at
-- most one operation in progress, and every operation stands under its own ids.
pub insert-IsValid :
    (now : ℕ) (io : Option InstanceOperation) {s : InstanceOperations}
    → IsValid s
    → IsValid (insert now io s).1
unfolding insert
insert-IsValid now none v = v
insert-IsValid now (some io) {s} v =
    elim (Bool-cases (is_empty io.instance_id || is_empty io.operation_id)) [
      | inl zero' ↦ rw zero' v
      | inr set' ↦ rw set' (insert_operation-IsValid now io (ensure-IsValid io.instance_id v))
    ]

-- What `Get` returns stands in the map of its instance.
pub get-eq-ok :
    (i : InstanceId) (k : OperationId) (s : InstanceOperations) {op : InstanceOperation}
    → get i k s ≡ ok op
    → (lookup k (operations_of i s) ≡ some op) × (is_empty i ≡ false) × (is_empty k ≡ false)
unfolding get
get-eq-ok i k s h = elim (Option-cases (lookup i s)) [
  | inl e ↦ absurd (ground arith)
  | inr (ops, e) ↦ ground arith
]

-- A new state and description for a stored operation.
rewrite-IsTable :
    (i : InstanceId) (k : OperationId) (op op' : InstanceOperation) {ops : Dict InstanceOperation}
    → lookup k ops ≡ some op
    → op'.instance_id ≡ op.instance_id
    → op'.operation_id ≡ op.operation_id
    → op_in_progress op' ≡ false
    → IsTable i ops
    → IsTable i (set k op' ops)
rewrite-IsTable i k op op' {ops} e p q idle t =
    let key : op'.operation_id ≡ k = q ∙ (t.keyed k op e).1 in
    rw (← key) (
      set-IsTable i op' (p ∙ (t.keyed k op e).0)
        (ground (arith, count-insert op_in_progress op'.operation_id op' ops)) t)

-- `UpdateStateDesc` keeps the invariant of the store if the new state is not `in progress`, with or
-- without an error.
pub update_state_desc-IsValid :
    (i : InstanceId) (k : OperationId) (state : OperationState) (desc : Option String)
    {s : InstanceOperations}
    → is_in_progress state ≡ false
    → IsValid s
    → IsValid (update_state_desc i k state desc s).1
unfolding update_state_desc
update_state_desc-IsValid i k state desc {s} idle v = elim (Result-cases (get i k s)) [
  | inl (e, q) ↦ rw (q, update_state_desc) v
  | inr (op, q) ↦
      rw (q, update_state_desc)
        (set-IsValid i
          (set k (record op { state = state; state_description = desc }) (operations_of i s))
          (rewrite-IsTable i k op (record op { state = state; state_description = desc })
            (get-eq-ok i k s q).0 refl refl idle (operations_of-IsTable i v))
          v)
]

update_state-update_state_desc :
    (i : InstanceId) (k : OperationId) (state : OperationState) (s : InstanceOperations)
    → update_state i k state s ≡ update_state_desc i k state none s
unfolding update_state update_state_desc
update_state-update_state_desc i k state s = refl

-- `UpdateState` keeps the invariant if it does not put the operation back in progress.
pub update_state-IsValid :
    (i : InstanceId) (k : OperationId) (state : OperationState) {s : InstanceOperations}
    → is_in_progress state ≡ false
    → IsValid s
    → IsValid (update_state i k state s).1
update_state-IsValid i k state idle v =
    rw update_state-update_state_desc (update_state_desc-IsValid i k state none idle v)

delete-IsTable :
    (i : InstanceId) (k : OperationId) {ops : Dict InstanceOperation}
    → IsTable i ops
    → IsTable i (delete k ops)
delete-IsTable i k {ops} t = record {
  distinct = delete-HasDistinctKeys k ops t.distinct;
  keyed = Entries-delete (IsKeyed i) k ops t.keyed;
  exclusive = omega (arith, count-delete-le op_in_progress k ops, t.exclusive);
}

-- `Remove` keeps the invariant of the store, with or without an error.
remove-IsValid :
    (i : InstanceId) (k : OperationId) {s : InstanceOperations}
    → IsValid s
    → IsValid (remove i k s).1
unfolding remove
remove-IsValid i k {s} v = elim (Result-cases (get i k s)) [
  | inl (e, q) ↦ rw (q, remove) v
  | inr (op, q) ↦ elim (Bool-cases (is_empty_dict (delete k (operations_of i s)))) [
    | inl last ↦
        rw (q, remove, last)
          (record {
            distinct = delete-HasDistinctKeys i s v.distinct;
            tables = Entries-delete IsTable i s v.tables;
          })
    | inr more ↦
        rw (q, remove, more)
          (set-IsValid i (delete k (operations_of i s))
            (delete-IsTable i k (operations_of-IsTable i v)) v)
  ]
]
