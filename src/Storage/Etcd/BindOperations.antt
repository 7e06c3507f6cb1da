-- ===== src/Storage/Etcd/BindOperations.antt =====
-- internal/storage/driver/etcd/entity_bind_operation.go: bind operations by instance, binding and operation id.
pub mod Exclusive
use Prim.Native.String.{◌++◌}
use helm_broker.Common.{
  ℕ, zero, suc, Bool, true, false, String, Option, none, some, List, [], ◌∷◌, if◌then◌else◌,
  is_empty, Error, plain, wrap, already_exists, active_operation_in_progress, not_found, Result, ok,
  err, wrap_result,
}
use helm_broker.Model.Operations.{
  InstanceId, BindingId, OperationId, OperationState, BindOperation, is_in_progress,
}
use helm_broker.Storage.Etcd.{Kv, Codec}

-- `instanceKeyPrefix`
abbrev pub instance_key_prefix : InstanceId → String
instance_key_prefix id = id ++ "/"

-- `bindKeyPrefix`
abbrev pub bind_key_prefix : BindingId → String
bind_key_prefix id = id ++ "/"

-- The prefix of the operations of a binding, in `isOperationInProgress`.
abbrev pub binding_prefix : InstanceId → BindingId → String
binding_prefix i b = instance_key_prefix i ++ bind_key_prefix b

-- `key`
abbrev pub key : InstanceId → BindingId → OperationId → String
key i b op_id = binding_prefix i b ++ op_id

-- The errors of `Put` and of `Delete`.
abbrev bind_put_error : String → Result Bool → Option Error
bind_put_error message (ok replaced) = none
bind_put_error message (err e) = some (wrap message e)

abbrev bind_deletion_error : Result ℕ → Option Error
bind_deletion_error (err e) = some (wrap "while deleting bind operation" e)
bind_deletion_error (ok zero) = some not_found
bind_deletion_error (ok (suc zero)) = none
bind_deletion_error (ok (suc (suc n))) =
    some (plain "more than one element matching requested id, should never happen")

module _ {S : Type 0} (kv : Kv S) (codec : Codec BindOperation) where
  -- `encodeDMToDSO` and `decodeDSOToDM`
  abbrev encode_bind : BindOperation → Result String
  encode_bind bo = wrap_result "while encoding entity" (codec.encode bo)

  abbrev decode_bind : String → Result BindOperation
  decode_bind v = wrap_result "while decoding DSO" (codec.decode v)

  -- The write at the end of `Insert` and `updateStateDesc`, with the message of its error.
  put_bind : String → String → Result String → S → Option Error × S
  put_bind message k (err e) s = (some e, s)
  put_bind message k (ok dso) s = let (r, s') = kv.put k dso s in (bind_put_error message r, s')

  -- The loop of `isOperationInProgress`.
  unfoldable pub any_bind_in_progress : List String → Result Bool
  any_bind_in_progress [] = ok false
  any_bind_in_progress (v ∷ vs) =
      let rest = any_bind_in_progress vs in
      elim (decode_bind v) [
        | err e ↦ err (wrap "while decoding returned entities" e)
        | ok bo ↦ if is_in_progress bo.state then ok true else rest
      ]

  -- `isOperationInProgress`
  is_bind_in_progress : InstanceId → BindingId → S → Result Bool
  unfolding any_bind_in_progress
  is_bind_in_progress i b s = elim (kv.get_prefix (binding_prefix i b) s) [
    | err e ↦ err (wrap "while getting bind operation" e)
    | ok vs ↦ any_bind_in_progress vs
  ]

  -- `Insert` from the check for operations in progress on.
  insert_bind_unless_in_progress : ℕ → BindOperation → Result Bool → S → Option Error × S
  unfolding put_bind
  insert_bind_unless_in_progress now bo (err e) s =
      (some (wrap "while checking if there are operations in progress" e), s)
  insert_bind_unless_in_progress now bo (ok true) s = (some active_operation_in_progress, s)
  insert_bind_unless_in_progress now bo (ok false) s =
      put_bind "while putting bind operation" (key bo.instance_id bo.binding_id bo.operation_id)
        (encode_bind (record bo { created_at = now })) s

  -- `Insert` from the look at the operation's own key on.
  insert_new_bind : ℕ → BindOperation → Result (List String) → S → Option Error × S
  unfolding insert_bind_unless_in_progress is_bind_in_progress
  insert_new_bind now bo (err e) s = (some (wrap "while getting bind operation" e), s)
  insert_new_bind now bo (ok (v ∷ vs)) s = (some already_exists, s)
  insert_new_bind now bo (ok []) s =
      insert_bind_unless_in_progress now bo (is_bind_in_progress bo.instance_id bo.binding_id s) s

  -- `Insert`, at the time `now`
  unfoldable pub insert : ℕ → BindOperation → S → Option Error × S
  unfolding insert_new_bind
  insert now bo s =
      insert_new_bind now bo (kv.get (key bo.instance_id bo.binding_id bo.operation_id) s) s

  abbrev decoded_bind : Result (List String) → Result BindOperation
  decoded_bind (err e) = err (wrap "while getting bind operation" e)
  decoded_bind (ok []) = err not_found
  decoded_bind (ok (v ∷ [])) = decode_bind v
  decoded_bind (ok (v ∷ w ∷ vs)) =
      err (plain "more than one element matching requested id, should never happen")

  -- `Get`
  unfoldable pub get : InstanceId → BindingId → OperationId → S → Result BindOperation
  get i b op_id s = decoded_bind (kv.get (key i b op_id) s)

  -- The loop of `GetAll`.
  unfoldable pub decode_all_binds : List String → Result (List BindOperation)
  decode_all_binds [] = ok []
  decode_all_binds (v ∷ vs) =
      let rest = decode_all_binds vs in
      elim (decode_bind v) [
        | err e ↦ err (wrap "while decoding returned entities" e)
        | ok bo ↦ elim rest [ err e ↦ err e | ok out ↦ ok (bo ∷ out) ]
      ]

  abbrev all_binds_of : Result (List String) → Result (List BindOperation)
  unfolding decode_all_binds
  all_binds_of (err e) = err (wrap "while getting bind operation" e)
  all_binds_of (ok []) = err not_found
  all_binds_of (ok (v ∷ vs)) = decode_all_binds (v ∷ vs)

  -- `GetAll`
  unfoldable pub get_all : InstanceId → S → Result (List BindOperation)
  unfolding all_binds_of
  get_all i s =
      if is_empty i
      then err (plain "instance id cannot be empty")
      else all_binds_of (kv.get_prefix (instance_key_prefix i) s)

  -- `updateStateDesc`, which is `UpdateStateDesc` too
  unfoldable pub update_state_desc :
      InstanceId → BindingId → OperationId → OperationState → Option String → S → Option Error × S
  unfolding get put_bind
  update_state_desc i b op_id state desc s = elim (get i b op_id s) [
    | err e ↦ (some (wrap "while getting bind operation on updateStateDesc" e), s)
    | ok bo ↦
        put_bind "while calling database on put" (key i b op_id)
          (wrap_result "while encoding bind operation on updateStateDesc"
            (encode_bind (record bo { state = state; state_description = desc })))
          s
  ]

  -- `UpdateState`
  unfoldable pub update_state :
      InstanceId → BindingId → OperationId → OperationState → S → Option Error × S
  unfolding update_state_desc
  update_state i b op_id state = update_state_desc i b op_id state none

  -- `Remove`
  unfoldable pub remove : InstanceId → BindingId → OperationId → S → Option Error × S
  remove i b op_id s = let (r, s') = kv.delete (key i b op_id) s in (bind_deletion_error r, s')
