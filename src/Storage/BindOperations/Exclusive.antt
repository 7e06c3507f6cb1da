-- ===== src/Storage/BindOperations/Exclusive.antt =====
-- An instance has at most one bind operation in progress, whatever its binding.
use helm_broker.Common.{
  ℕ, ◌≤◌, String, ◌≡◌, false, Option, some, arith, count_if, exists_in, Bool-cases, inl, inr,
  Result-cases, ok, count-eq-zero, Option-cases,
}
use helm_broker.Dict.{Dict, lookup, insert as set, delete, values}
use helm_broker.Dict.Nested.{inner, ensure, inner-ensure, inner-insert, inner-drop}
use helm_broker.Dict.Counting.{count-insert, count-delete-le}
use helm_broker.Model.Operations.{
  InstanceId, BindingId, OperationId, OperationState, BindOperation, is_in_progress,
}
use helm_broker.Storage.BindOperations.{
  BindOperations, bind_op_in_progress, insert_operation, insert, get, update_state_desc, remove,
}

abbrev pub active_count : InstanceId → BindOperations → ℕ
active_count i s = count_if bind_op_in_progress (values (inner i s))

abbrev pub IsExclusive : BindOperations → Type 0
IsExclusive s = (i : InstanceId) → active_count i s ≤ 1

-- A write to one instance's map that leaves at most one in progress there.
write-IsExclusive :
    (i : InstanceId) (ops : Dict BindOperation) (s : BindOperations)
    → count_if bind_op_in_progress (values ops) ≤ 1
    → IsExclusive s
    → IsExclusive (set i ops s)
write-IsExclusive i ops s c v j = rw (inner-insert i j ops s) (ground (arith, v j))

-- `Insert` of a bind operation leaves each instance with at most one in progress if that held before,
-- whether it stores the operation or returns an error.
pub insert-IsExclusive :
    (now : ℕ) (bo : BindOperation) (s : BindOperations)
    → IsExclusive s
    → IsExclusive (insert now bo s).1
unfolding insert insert_operation
insert-IsExclusive now bo s v = elim (Bool-cases (exists_in bind_op_in_progress (values ops))) [
  | inl busy ↦ rw busy kept
  | inr idle ↦ rw idle (
      write-IsExclusive i (set bo.operation_id bo' ops) (ensure i s)
        (ground (
          arith,
          count-insert bind_op_in_progress bo.operation_id bo' ops,
          count-eq-zero bind_op_in_progress (values ops) idle,
        ))
        kept)
]
  where
    i : InstanceId
    i = bo.instance_id

    bo' : BindOperation
    bo' = record bo { created_at = now }

    ops : Dict BindOperation
    ops = inner i (ensure i s)

    kept : IsExclusive (ensure i s)
    kept j = rw (inner-ensure i j s) (v j)

-- What `Get` returns stands in the map of its instance.
pub get-eq-ok :
    (i : InstanceId) (b : BindingId) (k : OperationId) (s : BindOperations) {op : BindOperation}
    → get i b k s ≡ ok op
    → lookup k (inner i s) ≡ some op
unfolding get
get-eq-ok i b k s h = elim (Option-cases (lookup i s)) [
  | inl e ↦ absurd (ground arith)
  | inr (ops, e) ↦ ground arith
]

-- `UpdateStateDesc` keeps the invariant if it does not put the operation back in progress.
pub update_state_desc-IsExclusive :
    (i : InstanceId) (b : BindingId) (k : OperationId) (state : OperationState)
    (desc : Option String) (s : BindOperations)
    → is_in_progress state ≡ false
    → IsExclusive s
    → IsExclusive (update_state_desc i b k state desc s).1
unfolding update_state_desc
update_state_desc-IsExclusive i b k state desc s idle v = elim (Result-cases (get i b k s)) [
  | inl (e, q) ↦ rw (q, update_state_desc) v
  | inr (op, q) ↦
      let op' : BindOperation = record op { state = state; state_description = desc } in
      rw (q, update_state_desc)
        (write-IsExclusive i (set k op' (inner i s)) s
          (ground (arith, v i, count-insert bind_op_in_progress k op' (inner i s))) v)
]

-- `Remove` of a bind operation leaves each instance with at most one in progress if that held before,
-- with or without an error.
pub remove-IsExclusive :
    (i : InstanceId) (b : BindingId) (k : OperationId) (s : BindOperations)
    → IsExclusive s
    → IsExclusive (remove i b k s).1
unfolding remove
remove-IsExclusive i b k s v = elim (Result-cases (get i b k s)) [
  | inl (e, q) ↦ rw (q, remove) v
  | inr (op, q) ↦
      rw (q, remove)
        (λ j.
          rw (inner-drop i j (delete k (inner i s)) s)
            (ground (arith, v i, v j, count-delete-le bind_op_in_progress k (inner i s))))
]
