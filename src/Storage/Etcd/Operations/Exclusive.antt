-- ===== src/Storage/Etcd/Operations/Exclusive.antt =====
-- An insertion that succeeds met no operation of the instance that was in progress.
use mathlib.Core.Bool.{false≢true}
use helm_broker.Common.{
  ℕ, String, ◌≡◌, refl, sym, ◌∙◌, Bool, true, false, none, some, List, [], ◌∷◌, ◌||◌, Result, ok,
  err, arith, exists_in, is_empty, Bool-cases, Result-cases, inl, inr,
}
use helm_broker.Model.Operations.{InstanceId, OperationId, InstanceOperation, is_in_progress}
use helm_broker.Storage.Etcd.{Kv, Codec, IsReliable, ReadsPrefixes}
use helm_broker.Storage.Etcd.Operations.{
  key, instance_key_prefix, any_in_progress, is_operation_in_progress, insert_unless_in_progress,
  insert_new, insert,
}

module _ {S : Type 0} (kv : Kv S) (codec : Codec InstanceOperation) where
  abbrev decodes_in_progress : String → Bool
  decodes_in_progress v = elim (codec.decode v) [ ok op ↦ is_in_progress op.state | err e ↦ false ]

  -- The loop that answers no met no operation in progress.
  any_in_progress-no :
      (vs : List String)
      → any_in_progress kv codec vs ≡ ok false
      → exists_in decodes_in_progress vs ≡ false
  unfolding any_in_progress exists_in
  any_in_progress-no [] h = refl
  any_in_progress-no (v ∷ vs) h = elim (Result-cases (codec.decode v)) [
    | inl (e, q) ↦ absurd (ground arith)
    | inr (op, q) ↦ rw (q, decodes_in_progress) (ground (arith, any_in_progress-no vs))
  ]

  insert_unless_in_progress-none :
      (now : ℕ) (io : InstanceOperation) (r : Result Bool) (s : S) {t : S}
      → insert_unless_in_progress kv codec now io r s ≡ (none, t)
      → r ≡ ok false
  unfolding insert_unless_in_progress
  insert_unless_in_progress-none now io (err e) s h = absurd (ground arith)
  insert_unless_in_progress-none now io (ok true) s h = absurd (ground arith)
  insert_unless_in_progress-none now io (ok false) s h = refl

  insert_new-none :
      (now : ℕ) (io : InstanceOperation) (r : Result (List String)) (s : S) {t : S}
      → insert_new kv codec now io r s ≡ (none, t)
      → is_operation_in_progress kv codec io.instance_id s ≡ ok false
  unfolding insert_new
  insert_new-none now io (err e) s h = absurd (ground arith)
  insert_new-none now io (ok (v ∷ vs)) s h = absurd (ground arith)
  insert_new-none now io (ok []) s h =
      insert_unless_in_progress-none now io (is_operation_in_progress kv codec io.instance_id s) s h

  insert-none :
      (now : ℕ) (io : InstanceOperation) (s : S) {t : S}
      → insert kv codec now (some io) s ≡ (none, t)
      → is_operation_in_progress kv codec io.instance_id s ≡ ok false
  unfolding insert
  insert-none now io s {t} h =
      elim (Bool-cases (is_empty io.instance_id || is_empty io.operation_id)) [
        | inl e ↦ absurd (ground arith)
        | inr e ↦
            insert_new-none now io (kv.get (key io.instance_id io.operation_id) s) s {t = t}
              (ground arith)
      ]

  module _ (reliable : IsReliable kv) (prefixes : ReadsPrefixes kv reliable) where
    no_operation_in_progress :
        (i : InstanceId) (s : S)
        → is_operation_in_progress kv codec i s ≡ ok false
        → exists_in decodes_in_progress (prefixes.values_under s (instance_key_prefix i)) ≡ false
    unfolding is_operation_in_progress
    no_operation_in_progress i s h =
        any_in_progress-no (prefixes.values_under s (instance_key_prefix i))
          (ground (arith, prefixes.get_values (instance_key_prefix i) s))

    -- Over a cluster that is reached, `Insert` of an operation succeeds only if no operation of the instance that the
    -- store holds is in progress.
    pub insert-exclusive :
        (now : ℕ) (io op : InstanceOperation) (op_id : OperationId) (s t : S) (v : String)
        → insert kv codec now (some io) s ≡ (none, t)
        → reliable.value_of s (key io.instance_id op_id) ≡ some v
        → codec.decode v ≡ ok op
        → is_in_progress op.state ≡ false
    insert-exclusive now io op op_id s t v h e d = elim (Bool-cases (is_in_progress op.state)) [
      | inr q ↦ q
      | inl q ↦ absurd (
          false≢true (
            sym (no_operation_in_progress io.instance_id s (insert-none now io s {t = t} h))
            ∙ prefixes.value_under (instance_key_prefix io.instance_id) op_id v s
                decodes_in_progress e (rw (d, decodes_in_progress) q)))
    ]
