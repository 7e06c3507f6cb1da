-- ===== src/Storage/Etcd/BindOperations/Exclusive.antt =====
-- An insertion that succeeds met no operation of the binding that was in progress.
use mathlib.Core.Bool.{false≢true}
use helm_broker.Common.{
  ℕ, String, ◌≡◌, refl, sym, ◌∙◌, Bool, true, false, none, some, List, [], ◌∷◌, Result, ok, err,
  arith, exists_in, Bool-cases, Result-cases, inl, inr,
}
use helm_broker.Model.Operations.{InstanceId, BindingId, OperationId, BindOperation, is_in_progress}
use helm_broker.Storage.Etcd.{Kv, Codec, IsReliable, ReadsPrefixes}
use helm_broker.Storage.Etcd.BindOperations.{
  key, binding_prefix, any_bind_in_progress, is_bind_in_progress, insert_bind_unless_in_progress,
  insert_new_bind, insert,
}

module _ {S : Type 0} (kv : Kv S) (codec : Codec BindOperation) where
  abbrev shows_progress : String → Bool
  shows_progress v = elim (codec.decode v) [ ok op ↦ is_in_progress op.state | err e ↦ false ]

  -- The loop that answers no met no operation in progress.
  any_bind_in_progress-no :
      (vs : List String)
      → any_bind_in_progress kv codec vs ≡ ok false
      → exists_in shows_progress vs ≡ false
  unfolding any_bind_in_progress exists_in
  any_bind_in_progress-no [] h = refl
  any_bind_in_progress-no (v ∷ vs) h = elim (Result-cases (codec.decode v)) [
    | inl (e, q) ↦ absurd (ground arith)
    | inr (op, q) ↦ rw (q, shows_progress) (ground (arith, any_bind_in_progress-no vs))
  ]

  unless_in_progress-none :
      (now : ℕ) (bo : BindOperation) (r : Result Bool) (s : S) {t : S}
      → insert_bind_unless_in_progress kv codec now bo r s ≡ (none, t)
      → r ≡ ok false
  unfolding insert_bind_unless_in_progress
  unless_in_progress-none now bo (err e) s h = absurd (ground arith)
  unless_in_progress-none now bo (ok true) s h = absurd (ground arith)
  unless_in_progress-none now bo (ok false) s h = refl

  insert_new_bind-none :
      (now : ℕ) (bo : BindOperation) (r : Result (List String)) (s : S) {t : S}
      → insert_new_bind kv codec now bo r s ≡ (none, t)
      → is_bind_in_progress kv codec bo.instance_id bo.binding_id s ≡ ok false
  unfolding insert_new_bind
  insert_new_bind-none now bo (err e) s h = absurd (ground arith)
  insert_new_bind-none now bo (ok (v ∷ vs)) s h = absurd (ground arith)
  insert_new_bind-none now bo (ok []) s h =
      unless_in_progress-none now bo (is_bind_in_progress kv codec bo.instance_id bo.binding_id s) s
        h

  insert_bind-none :
      (now : ℕ) (bo : BindOperation) (s : S) {t : S}
      → insert kv codec now bo s ≡ (none, t)
      → is_bind_in_progress kv codec bo.instance_id bo.binding_id s ≡ ok false
  unfolding insert
  insert_bind-none now bo s h =
      insert_new_bind-none now bo (kv.get (key bo.instance_id bo.binding_id bo.operation_id) s) s h

  module _ (reliable : IsReliable kv) (prefixes : ReadsPrefixes kv reliable) where
    no_bind_in_progress :
        (i : InstanceId) (b : BindingId) (s : S)
        → is_bind_in_progress kv codec i b s ≡ ok false
        → exists_in shows_progress (prefixes.values_under s (binding_prefix i b)) ≡ false
    unfolding is_bind_in_progress
    no_bind_in_progress i b s h =
        any_bind_in_progress-no (prefixes.values_under s (binding_prefix i b))
          (ground (arith, prefixes.get_values (binding_prefix i b) s))

    -- Over a cluster that is reached, `Insert` of a bind operation succeeds only if no operation of the binding that
    -- the store holds is in progress.
    insert_bind-exclusive :
        (now : ℕ) (bo op : BindOperation) (op_id : OperationId) (s t : S) (v : String)
        → insert kv codec now bo s ≡ (none, t)
        → reliable.value_of s (key bo.instance_id bo.binding_id op_id) ≡ some v
        → codec.decode v ≡ ok op
        → is_in_progress op.state ≡ false
    insert_bind-exclusive now bo op op_id s t v h e d =
        elim (Bool-cases (is_in_progress op.state)) [
          | inr q ↦ q
          | inl q ↦ absurd (
              false≢true (
                sym (
                  no_bind_in_progress bo.instance_id bo.binding_id s
                    (insert_bind-none now bo s {t = t} h))
                ∙ prefixes.value_under (binding_prefix bo.instance_id bo.binding_id) op_id v s
                    shows_progress e (rw (d, shows_progress) q)))
        ]
