-- ===== src/Storage/Operations/Views.antt =====
-- What a client sees of the store: the operation under each pair of ids. Each method is described
-- by what it returns and by what it makes of these.
use mathlib.Core.Path.{ap₂}
use helm_broker.Common.{
  true, List, [], ◌∷◌, ℕ, String, ◌≡◌, refl, ap, sym, ◌∙◌, eq_refl, Bool, false, Option, none, some,
  arith, ◌==◌, ◌||◌, ◌&&◌, eq_iff, if◌then◌else◌, exists_in, Option-cases, inl, inr, is_empty, not,
  found, error_of, Error, plain, not_found, already_exists, active_operation_in_progress,
  Result-cases, ok, err,
}
use helm_broker.Dict.{lookup, delete, values}
use helm_broker.Dict.Nested.{
  find, ensure, inner-ensure, find-insert as find-set, inner-drop, find-drop,
}
use helm_broker.Model.Operations.{
  InstanceId, OperationId, OperationState, InstanceOperation, in_progress, succeeded, failed,
  is_in_progress,
}
use helm_broker.Storage.Operations.{
  InstanceOperations, operations_of, op_in_progress, insert_operation, insert, get,
  update_state_desc, remove,
}

-- The instance has an operation in progress.
abbrev pub is_busy : InstanceId → InstanceOperations → Bool
is_busy i s = exists_in op_in_progress (values (operations_of i s))

-- The error of `Insert`, by what the client sees.
abbrev pub insert_error : InstanceOperation → InstanceOperations → Option Error
insert_error io s =
    if is_empty io.instance_id || is_empty io.operation_id
    then some (plain "both instance and operation id must be set")
    else if found (find io.instance_id io.operation_id s)
    then some already_exists
    else if is_busy io.instance_id s
    then some active_operation_in_progress
    else none

-- The error of `Insert` is, in this order: that an id is empty, that an operation stands under the ids,
-- that the instance has an operation in progress; and there is none otherwise.
insert-error :
    (now : ℕ) (io : InstanceOperation) (s : InstanceOperations)
    → (insert now (some io) s).0 ≡ insert_error io s
unfolding insert insert_operation
insert-error now io s = ground (arith, inner-ensure io.instance_id io.instance_id s)

-- After `Insert` an operation without an error is found under its ids, with the time of the insertion;
-- an error changes nothing that can be found, and no other pair of ids is touched in either case.
find-insert :
    (now : ℕ) (io : InstanceOperation) (s : InstanceOperations) (j : InstanceId) (p : OperationId)
    → find j p (insert now (some io) s).1 ≡ (
        if (io.instance_id == j) && ((io.operation_id == p) && not (found (insert_error io s)))
        then some (record io { created_at = now })
        else find j p s)
unfolding insert insert_operation
find-insert now io s j p = ground (
  arith,
  inner-ensure io.instance_id io.instance_id s,
  inner-ensure io.instance_id j s,
  find-set io.instance_id j io.operation_id p (record io { created_at = now })
      (ensure io.instance_id s),
)

-- The state is that of an operation that has not ended.
abbrev pub has_not_ended : OperationState → Bool
has_not_ended in_progress = true
has_not_ended succeeded = false
has_not_ended failed = false

has_not_ended-eq : (state : OperationState) → has_not_ended state ≡ is_in_progress state
has_not_ended-eq in_progress = refl
has_not_ended-eq succeeded = refl
has_not_ended-eq failed = refl

not_ended-busy :
    (ops : List InstanceOperation)
    → exists_in (λ op. has_not_ended op.state) ops ≡ exists_in op_in_progress ops
unfolding exists_in
not_ended-busy [] = refl
not_ended-busy (op ∷ ops) = ap₂ (λ a b. a || b) (has_not_ended-eq op.state) (not_ended-busy ops)

-- `Insert` returns, in this order: that an id is empty, that an operation stands under the ids, that the instance
-- has an operation in progress, and no error otherwise. The operation is then found under its ids, with the time of
-- the insertion; an error changes nothing that can be found, and no other pair of ids is touched in either case.
pub insert-find :
    (now : ℕ) (io : InstanceOperation) (s : InstanceOperations) (j : InstanceId) (p : OperationId)
    → ((insert now (some io) s).0 ≡ (
        if is_empty io.instance_id || is_empty io.operation_id
        then some (plain "both instance and operation id must be set")
        else if found (find io.instance_id io.operation_id s)
        then some already_exists
        else if exists_in (λ op. has_not_ended op.state) (values (operations_of io.instance_id s))
        then some active_operation_in_progress
        else none))
      × (find j p (insert now (some io) s).1 ≡ (
          if (io.instance_id == j)
            && ((io.operation_id == p) && not (found (insert now (some io) s).0))
          then some (record io { created_at = now })
          else find j p s))
insert-find now io s j p = (
  insert-error now io s ∙ rw (not_ended-busy (values (operations_of io.instance_id s))) refl,
  find-insert now io s j p ∙ rw (insert-error now io s) refl,
)

-- `Get` returns what is found under two ids that are set.
pub get-find :
    (i : InstanceId) (k : OperationId) (s : InstanceOperations)
    → get i k s ≡ (
        if is_empty i || is_empty k
        then err (plain "both instance and operation id must be set")
        else elim (find i k s) [ none ↦ err not_found | some op ↦ ok op ])
unfolding get lookup
get-find i k s = ground arith

pub get_found :
    (i : InstanceId) (k : OperationId) (s : InstanceOperations) {op : InstanceOperation}
    → is_empty i ≡ false
    → is_empty k ≡ false
    → find i k s ≡ some op
    → get i k s ≡ ok op
get_found i k s hi hk e = ground (arith, get-find i k s)

-- `UpdateStateDesc` returns the error of `Get`.
pub update_state_desc-error :
    (i : InstanceId) (k : OperationId) (state : OperationState) (desc : Option String)
    (s : InstanceOperations)
    → (update_state_desc i k state desc s).0 ≡ error_of (get i k s)
unfolding update_state_desc
update_state_desc-error i k state desc s = elim (Result-cases (get i k s)) [
  | inl (e, q) ↦ rw (q, update_state_desc) refl
  | inr (op, q) ↦ rw (q, update_state_desc) refl
]

-- The new state and description, where an operation is found.
abbrev pub restated :
    OperationState → Option String → Option InstanceOperation → Option InstanceOperation
restated state desc none = none
restated state desc (some op) = some (record op { state = state; state_description = desc })

-- For ids that are set, `UpdateStateDesc` gives the operation under them, if there is one, the new state
-- and description, and changes no other operation.
pub find-update_state_desc :
    (i j : InstanceId) (k p : OperationId) (state : OperationState) (desc : Option String)
    (s : InstanceOperations)
    → is_empty i ≡ false
    → is_empty k ≡ false
    → find j p (update_state_desc i k state desc s).1
      ≡ (if (i == j) && (k == p) then restated state desc (find j p s) else find j p s)
unfolding update_state_desc get
find-update_state_desc i j k p state desc s hi hk = elim (Option-cases (find i k s)) [
  | inl e ↦ ground (arith, get-find i k s, eq_iff i j, eq_iff k p)
  | inr (op, e) ↦
      rw (get_found i k s hi hk e, update_state_desc)
        (ground (
          arith,
          find-set i j k p (record op { state = state; state_description = desc }) s,
          eq_iff i j,
          eq_iff k p,
        ))
]

-- For ids that are set, `Remove` takes away the operation under them and no other.
find-remove :
    (i j : InstanceId) (k p : OperationId) (s : InstanceOperations)
    → is_empty i ≡ false
    → is_empty k ≡ false
    → find j p (remove i k s).1 ≡ (if (i == j) && (k == p) then none else find j p s)
unfolding remove
find-remove i j k p s hi hk = elim (Option-cases (find i k s)) [
  | inl e ↦ ground (arith, get-find i k s, eq_iff i j, eq_iff k p)
  | inr (op, e) ↦
      rw (get_found i k s hi hk e, remove, inner-drop i j (delete k (operations_of i s)) s)
        (find-drop i j k p s)
]

-- An insertion without an error: the ids are set, the ids were free and the instance idle before, and
-- the operation is stored.
pub insert-eq-none :
    (now : ℕ) (io : InstanceOperation) (s : InstanceOperations) {t : InstanceOperations}
    → insert now (some io) s ≡ (none, t)
    → (is_empty io.instance_id ≡ false)
      × (is_empty io.operation_id ≡ false)
      × (find io.instance_id io.operation_id t ≡ some (record io { created_at = now }))
insert-eq-none now io s {t} h =
    let i = io.instance_id in
    let k = io.operation_id in
    let fine : insert_error io s ≡ none = sym (insert-error now io s) ∙ ap (λ p. p.0) h in
    let stored = find-insert now io s i k in
    let last : (insert now (some io) s).1 ≡ t = ap (λ p. p.1) h in
    (
      ground arith,
      ground arith,
      ap (find i k) (sym last) ∙ stored ∙ rw (eq_refl i, eq_refl k, fine) refl,
    )
