-- ===== src/Storage/Etcd/Operations.antt =====
-- internal/storage/driver/etcd/entity_operation.go: operations by instance and operation id.
pub mod Exclusive
use Prim.Native.String.{◌++◌}
use helm_broker.Common.{
  ℕ, zero, suc, Bool, true, false, String, Option, none, some, List, [], ◌∷◌, ◌||◌, if◌then◌else◌,
  is_empty, Error, plain, wrap, already_exists, active_operation_in_progress, not_found, Result, ok,
  err, wrap_result,
}
use helm_broker.Model.Operations.{
  InstanceId, OperationId, OperationState, InstanceOperation, is_in_progress,
}
use helm_broker.Storage.Etcd.{Kv, Codec, put_error, deletion_error}

-- `instanceKeyPrefix`
abbrev pub instance_key_prefix : InstanceId → String
instance_key_prefix id = id ++ "/"

-- `key`
abbrev pub key : InstanceId → OperationId → String
key i op_id = instance_key_prefix i ++ op_id

abbrev pub both_ids_error : Error
both_ids_error = plain "both instance and operation id must be set"

module _ {S : Type 0} (kv : Kv S) (codec : Codec InstanceOperation) where
  -- `encodeDMToDSO` and `decodeDSOToDM`
  abbrev encode_dm_to_dso : InstanceOperation → Result String
  encode_dm_to_dso io = wrap_result "while encoding entity" (codec.encode io)

  abbrev decode_dso_to_dm : String → Result InstanceOperation
  decode_dso_to_dm v = wrap_result "while decoding DSO" (codec.decode v)

  -- The encoding and the write at the end of `Insert` and `updateStateDesc`.
  put_operation : String → Result String → S → Option Error × S
  put_operation k (err e) s = (some e, s)
  put_operation k (ok dso) s = let (r, s') = kv.put k dso s in (put_error r, s')

  -- The loop of `isOperationInProgress`.
  unfoldable pub any_in_progress : List String → Result Bool
  any_in_progress [] = ok false
  any_in_progress (v ∷ vs) =
      let rest = any_in_progress vs in
      elim (decode_dso_to_dm v) [
        | err e ↦ err (wrap "while decoding returned entities" e)
        | ok io ↦ if is_in_progress io.state then ok true else rest
      ]

  -- `isOperationInProgress`
  is_operation_in_progress : InstanceId → S → Result Bool
  unfolding any_in_progress
  is_operation_in_progress i s = elim (kv.get_prefix (instance_key_prefix i) s) [
    | err e ↦ err (wrap "while calling database" e)
    | ok vs ↦ any_in_progress vs
  ]

  -- `Insert` from the check for operations in progress on.
  insert_unless_in_progress : ℕ → InstanceOperation → Result Bool → S → Option Error × S
  unfolding put_operation
  insert_unless_in_progress now io (err e) s =
      (some (wrap "while checking if there are operations in progress" e), s)
  insert_unless_in_progress now io (ok true) s = (some active_operation_in_progress, s)
  insert_unless_in_progress now io (ok false) s =
      put_operation (key io.instance_id io.operation_id)
        (encode_dm_to_dso (record io { created_at = now })) s

  -- `Insert` from the look at the operation's own key on.
  insert_new : ℕ → InstanceOperation → Result (List String) → S → Option Error × S
  unfolding insert_unless_in_progress is_operation_in_progress
  insert_new now io (err e) s = (some (wrap "while calling database" e), s)
  insert_new now io (ok (v ∷ vs)) s = (some already_exists, s)
  insert_new now io (ok []) s =
      insert_unless_in_progress now io (is_operation_in_progress io.instance_id s) s

  -- `Insert`, at the time `now`
  unfoldable pub insert : ℕ → Option InstanceOperation → S → Option Error × S
  unfolding insert_new
  insert now none s = (some (plain "entity may not be nil"), s)
  insert now (some io) s =
      if is_empty io.instance_id || is_empty io.operation_id
      then (some both_ids_error, s)
      else insert_new now io (kv.get (key io.instance_id io.operation_id) s) s

  abbrev decoded_one : Result (List String) → Result InstanceOperation
  decoded_one (err e) = err (wrap "while calling database" e)
  decoded_one (ok []) = err not_found
  decoded_one (ok (v ∷ [])) = decode_dso_to_dm v
  decoded_one (ok (v ∷ w ∷ vs)) =
      err (plain "more than one element matching requested id, should never happen")

  -- `Get`
  unfoldable pub get : InstanceId → OperationId → S → Result InstanceOperation
  get i op_id s =
      if is_empty i || is_empty op_id
      then err both_ids_error
      else decoded_one (kv.get (key i op_id) s)

  -- The loop of `GetAll`.
  unfoldable pub decode_all : List String → Result (List InstanceOperation)
  decode_all [] = ok []
  decode_all (v ∷ vs) =
      let rest = decode_all vs in
      elim (decode_dso_to_dm v) [
        | err e ↦ err (wrap "while decoding returned entities" e)
        | ok io ↦ elim rest [ err e ↦ err e | ok out ↦ ok (io ∷ out) ]
      ]

  abbrev all_of : Result (List String) → Result (List InstanceOperation)
  unfolding decode_all
  all_of (err e) = err (wrap "while calling database" e)
  all_of (ok []) = err not_found
  all_of (ok (v ∷ vs)) = decode_all (v ∷ vs)

  -- `GetAll`
  unfoldable pub get_all : InstanceId → S → Result (List InstanceOperation)
  unfolding all_of
  get_all i s = all_of (kv.get_prefix (instance_key_prefix i) s)

  -- `updateStateDesc`, which is `UpdateStateDesc` too
  unfoldable pub update_state_desc :
      InstanceId → OperationId → OperationState → Option String → S → Option Error × S
  unfolding get put_operation
  update_state_desc i op_id state desc s = elim (get i op_id s) [
    | err e ↦ (some e, s)
    | ok io ↦
        put_operation (key i op_id)
          (encode_dm_to_dso (record io { state = state; state_description = desc })) s
  ]

  -- `UpdateState`
  unfoldable pub update_state : InstanceId → OperationId → OperationState → S → Option Error × S
  unfolding update_state_desc
  update_state i op_id state = update_state_desc i op_id state none

  -- `Remove`
  unfoldable pub remove : InstanceId → OperationId → S → Option Error × S
  remove i op_id s = let (r, s') = kv.delete (key i op_id) s in (deletion_error r, s')
