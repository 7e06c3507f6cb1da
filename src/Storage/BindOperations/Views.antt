-- ===== src/Storage/BindOperations/Views.antt =====
-- What a client sees of the store of bind operations.
use helm_broker.Common.{
  false, ℕ, ◌≡◌, Bool, none, some, arith, ◌==◌, ◌||◌, ◌&&◌, not, if◌then◌else◌, exists_in, plain,
  not_found, ok, err, is_empty, true, active_operation_in_progress,
}
use helm_broker.Dict.{lookup, values}
use helm_broker.Dict.Entries.{lookup-exists}
use helm_broker.Dict.Nested.{inner, find, ensure, inner-ensure, find-insert as find-set}
use helm_broker.Model.Operations.{InstanceId, BindingId, OperationId, BindOperation}
use helm_broker.Storage.BindOperations.{
  BindOperations, bind_op_in_progress, insert_operation, insert, get,
}

-- The instance has a bind operation in progress.
abbrev pub is_busy : InstanceId → BindOperations → Bool
is_busy i s = exists_in bind_op_in_progress (values (inner i s))

-- `Insert` stores the operation under its ids exactly when the instance has none in progress.
pub find-insert :
    (now : ℕ) (bo : BindOperation) (s : BindOperations) (j : InstanceId) (p : OperationId)
    → find j p (insert now bo s).1 ≡ (
        if (bo.instance_id == j) && ((bo.operation_id == p) && not (is_busy bo.instance_id s))
        then some (record bo { created_at = now })
        else find j p s)
unfolding insert insert_operation
find-insert now bo s j p = ground (
  arith,
  inner-ensure bo.instance_id bo.instance_id s,
  inner-ensure bo.instance_id j s,
  find-set bo.instance_id j bo.operation_id p (record bo { created_at = now })
      (ensure bo.instance_id s),
)

-- An insertion without an error met no operation in progress.
pub insert-idle :
    (now : ℕ) (bo : BindOperation) (s : BindOperations)
    → (insert now bo s).0 ≡ none
    → is_busy bo.instance_id s ≡ false
unfolding insert insert_operation
insert-idle now bo s h = ground (arith, inner-ensure bo.instance_id bo.instance_id s)

-- While the operation that is found under some id of the instance is in progress, every insertion for the
-- instance is refused.
pub insert-busy :
    (now : ℕ) (bo : BindOperation) (p : OperationId) (s : BindOperations) {op : BindOperation}
    → find bo.instance_id p s ≡ some op
    → bind_op_in_progress op ≡ true
    → (insert now bo s).0 ≡ some active_operation_in_progress
unfolding insert insert_operation
insert-busy now bo p s {op} h k =
    rw (inner-ensure bo.instance_id bo.instance_id s)
      (ground (arith, lookup-exists bind_op_in_progress p op (inner bo.instance_id s) h k))

-- `Get` returns what is found under the instance and the operation id.
pub get-find :
    (i : InstanceId) (b : BindingId) (k : OperationId) (s : BindOperations)
    → get i b k s ≡ (
        if is_empty i || (is_empty b || is_empty k)
        then err (plain "all parameters: instance, binding and operation id must be set")
        else elim (find i k s) [ none ↦ err not_found | some op ↦ ok op ])
unfolding get lookup
get-find i b k s = ground arith
