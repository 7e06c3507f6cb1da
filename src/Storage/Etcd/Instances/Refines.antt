-- ===== src/Storage/Etcd/Instances/Refines.antt =====
-- Over a cluster that is reached, the etcd store of instances does what the in-memory store does.
use mathlib.Core.Path.{subst, subst₂}
use helm_broker.Common.{
  not_found, wrap_result, already_exists, String, ◌≡◌, refl, ap, sym, ◌∙◌, Bool, true, false, not,
  Option, none, some, [], ◌==◌, ok, err, arith, if◌then◌else◌, is_empty, found, Bool-cases, inl,
  inr, eq_iff,
}
use helm_broker.Dict.{lookup, insert as set, delete, lookup-insert, lookup-delete}
use helm_broker.Model.Operations.{InstanceId}
use helm_broker.Model.Instances.{ServiceInstance}
use helm_broker.Storage.Instances as Memory
use helm_broker.Storage.Instances.{Instances}
use helm_broker.Storage.Etcd.{
  put_error, deletion_error, Kv, Codec, IsReliable, IsEncoded, value_list,
}
use helm_broker.Storage.Etcd.Instances.{
  upsert, insert, get, remove, put_encoded, insert_encoded, put_new, decoded_one,
}

module _ {S : Type 0} (kv : Kv S) (codec : Codec ServiceInstance) (reliable : IsReliable kv) where
  -- The value of a key stands for what the in-memory store has under it.
  abbrev StandsFor : Option String → Option ServiceInstance → Type 0
  StandsFor none o = o ≡ none
  StandsFor (some v) o = (i : ServiceInstance) × (codec.decode v ≡ ok i) × (o ≡ some i)

  abbrev pub Refines : S → Instances → Type 0
  Refines s m = (k : InstanceId) → StandsFor (reliable.value_of s k) (lookup k m)

  found-StandsFor :
      (o : Option String) (p : Option ServiceInstance) → StandsFor o p → found o ≡ found p
  found-StandsFor none p h = ap found (sym h)
  found-StandsFor (some v) p (i, d, h) = ap found (sym h)

  StandsFor-if :
      (b : Bool) (o o' : Option String) (p p' : Option ServiceInstance)
      → StandsFor o p
      → StandsFor o' p'
      → StandsFor (if b then o else o') (if b then p else p')
  StandsFor-if true o o' p p' h k = h
  StandsFor-if false o o' p p' h k = k

  put-Refines :
      (i : ServiceInstance) (t : String) (s : S) (m : Instances)
      → is_empty i.id ≡ false
      → codec.decode t ≡ ok i
      → Refines s m
      → Refines (kv.put i.id t s).1 (set i.id i m)
  put-Refines i t s m e d h k =
      subst₂ StandsFor (sym (reliable.put_value i.id t s k e)) (sym (lookup-insert i.id k i m)) (
        StandsFor-if (i.id == k) (some t) (reliable.value_of s k) (some i) (lookup k m) (i, d, refl)
          (h k))

  delete-Refines :
      (id : InstanceId) (s : S) (m : Instances)
      → is_empty id ≡ false
      → Refines s m
      → Refines (kv.delete id s).1 (delete id m)
  delete-Refines id s m e h k =
      subst₂ StandsFor (sym (reliable.delete_value id s k e)) (sym (lookup-delete id k m))
        (StandsFor-if (id == k) none (reliable.value_of s k) none (lookup k m) refl (h k))

  -- One method of the driver, by its result and the new state.
  abbrev pub Simulates : {R : Type 0} → R × S → R × Instances → Type 0
  Simulates (r, s) (q, m) = (r ≡ q) × Refines s m

  decoded-StandsFor :
      (o : Option String) (p : Option ServiceInstance)
      → StandsFor o p
      → decoded_one kv codec (ok (value_list o)) ≡ elim p [ none ↦ err not_found | some i ↦ ok i ]
  decoded-StandsFor none p h = rw h refl
  decoded-StandsFor (some v) p (i, d, h) = rw (h, d) refl

  get-Memory :
      (id : InstanceId) (s : S) (m : Instances)
      → is_empty id ≡ false
      → Refines s m
      → get kv codec id s ≡ Memory.get id m
  unfolding get Memory.get
  get-Memory id s m e h =
      ap (decoded_one kv codec) (reliable.get_value id s e)
      ∙ decoded-StandsFor (reliable.value_of s id) (lookup id m) (h id)

  upsert-Memory :
      (i : ServiceInstance) (m : Instances)
      → is_empty i.id ≡ false
      → Memory.upsert (some i) m ≡ (ok (found (lookup i.id m)), set i.id i m)
  unfolding Memory.upsert
  upsert-Memory i m e = ground arith

  upsert-Kv :
      (i : ServiceInstance) (t : String) (s : S)
      → is_empty i.id ≡ false
      → codec.encode i ≡ ok t
      → upsert kv codec (some i) s ≡ (ok (found (reliable.value_of s i.id)), (kv.put i.id t s).1)
  unfolding upsert
  upsert-Kv i t s e q =
      rw (e, q, upsert, put_encoded)
        (ap (λ r. (wrap_result "while calling database on put" r, (kv.put i.id t s).1))
          (reliable.put_result i.id t s e))

  -- The look at the key and the write of `Insert`, by what stands under the key.
  put_new-Simulates :
      (i : ServiceInstance) (t : String) (s : S) (m : Instances) (o : Option String)
      (p : Option ServiceInstance)
      → is_empty i.id ≡ false
      → codec.decode t ≡ ok i
      → Refines s m
      → StandsFor o p
      → Simulates
          (put_new kv codec i.id t (ok (value_list o)) s)
          (if found p then (some already_exists, m) else (none, set i.id i m))
  unfolding put_new
  put_new-Simulates i t s m none p e d h q =
      subst
        (λ x.
          Simulates (put_new kv codec i.id t (ok []) s)
            (if found x then (some already_exists, m) else (none, set i.id i m)))
        (sym q) (ap (put_error) (reliable.put_result i.id t s e), put-Refines i t s m e d h)
  put_new-Simulates i t s m (some v) p e d h (j, c, q) =
      subst
        (λ x.
          Simulates (some already_exists, s)
            (if found x then (some already_exists, m) else (none, set i.id i m)))
        (sym q) (refl, h)

  insert-Kv :
      (i : ServiceInstance) (t : String) (s : S)
      → is_empty i.id ≡ false
      → codec.encode i ≡ ok t
      → insert kv codec (some i) s
        ≡ put_new kv codec i.id t (ok (value_list (reliable.value_of s i.id))) s
  unfolding insert
  insert-Kv i t s e q =
      rw (e, q, insert, insert_encoded)
        (ap (λ r. put_new kv codec i.id t r s) (reliable.get_value i.id s e))

  insert-Memory :
      (i : ServiceInstance) (m : Instances)
      → is_empty i.id ≡ false
      → Memory.insert (some i) m
        ≡ (if found (lookup i.id m) then (some already_exists, m) else (none, set i.id i m))
  unfolding Memory.insert
  insert-Memory i m e = ground arith

  -- The answer of `Delete` and the new state, by what stands under the key.
  delete-Simulates :
      (id : InstanceId) (s : S) (m : Instances) (o : Option String) (p : Option ServiceInstance)
      → is_empty id ≡ false
      → Refines s m
      → lookup id m ≡ p
      → StandsFor o p
      → Simulates
          (deletion_error (ok (if found o then 1 else 0)), (kv.delete id s).1)
          (if not (found p) then (some not_found, m) else (none, delete id m))
  delete-Simulates id s m none p e h at q =
      subst
        (λ x.
          Simulates (some not_found, (kv.delete id s).1)
            (if not (found x) then (some not_found, m) else (none, delete id m)))
        (sym q)
        (
          refl,
          λ k.
              subst (StandsFor (reliable.value_of (kv.delete id s).1 k))
                (lookup-delete id k m ∙ ground (arith, eq_iff id k, at ∙ q))
                (delete-Refines id s m e h k),
        )
  delete-Simulates id s m (some v) p e h at (j, c, q) =
      subst
        (λ x.
          Simulates (none, (kv.delete id s).1)
            (if not (found x) then (some not_found, m) else (none, delete id m)))
        (sym q) (refl, delete-Refines id s m e h)

  upsert-Simulates :
      (i : ServiceInstance) (s : S) (m : Instances)
      → IsEncoded codec i
      → Refines s m
      → Simulates (upsert kv codec (some i) s) (Memory.upsert (some i) m)
  unfolding upsert Memory.upsert
  upsert-Simulates i s m (t, q, d) h = elim (Bool-cases (is_empty i.id)) [
    | inl e ↦ rw e (refl, h)
    | inr e ↦
        subst₂ Simulates (sym (upsert-Kv i t s e q)) (sym (upsert-Memory i m e))
          (ap ok (found-StandsFor _ _ (h i.id)), put-Refines i t s m e d h)
  ]

  insert-Simulates :
      (i : ServiceInstance) (s : S) (m : Instances)
      → IsEncoded codec i
      → Refines s m
      → Simulates (insert kv codec (some i) s) (Memory.insert (some i) m)
  unfolding insert Memory.insert
  insert-Simulates i s m (t, q, d) h = elim (Bool-cases (is_empty i.id)) [
    | inl e ↦ rw e (refl, h)
    | inr e ↦
        subst₂ Simulates (sym (insert-Kv i t s e q)) (sym (insert-Memory i m e))
          (put_new-Simulates i t s m (reliable.value_of s i.id) (lookup i.id m) e d h (h i.id))
  ]

  remove-Simulates :
      (id : InstanceId) (s : S) (m : Instances)
      → is_empty id ≡ false
      → Refines s m
      → Simulates (remove kv codec id s) (Memory.remove id m)
  unfolding remove Memory.remove
  remove-Simulates id s m e h =
      subst (λ r. Simulates (deletion_error r, (kv.delete id s).1) (Memory.remove id m))
        (sym (reliable.delete_result id s e))
        (delete-Simulates id s m (reliable.value_of s id) (lookup id m) e h refl (h id))

  -- Over a cluster that is reached, while the etcd store stands for an in-memory store: `Upsert` and `Insert` of an
  -- instance that the encoding restores, and `Get` and `Remove` under an id that is set, return what the
  -- in-memory store returns, and the new stores stand for each other.
  pub driver-Simulates :
      (i : ServiceInstance) (id : InstanceId) (s : S) (m : Instances)
      → IsEncoded codec i
      → is_empty id ≡ false
      → Refines s m
      → Simulates (upsert kv codec (some i) s) (Memory.upsert (some i) m)
        × Simulates (insert kv codec (some i) s) (Memory.insert (some i) m)
        × (get kv codec id s ≡ Memory.get id m)
        × Simulates (remove kv codec id s) (Memory.remove id m)
  driver-Simulates i id s m encoded e h = (
    upsert-Simulates i s m encoded h,
    insert-Simulates i s m encoded h,
    get-Memory id s m e h,
    remove-Simulates id s m e h,
  )
