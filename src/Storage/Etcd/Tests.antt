-- ===== src/Storage/Etcd/Tests.antt =====
-- A key-value store in memory, in the place of a cluster.
mod Addons
mod Charts
use Prim.Native.String.{◌++◌}
use text.Mathlib.Text.{starts_with}
use text.Mathlib.TextPositions.{starts_with-append}
use helm_broker.Common.{
  exists_in, eq_iff, ap, ◌∙◌, Bool, true, false, List, arith, String, ◌≡◌, refl, none, some, [],
  ◌∷◌, ◌==◌, ok, err, plain, found, is_empty, Bool-cases, inl, inr, if◌then◌else◌,
}
use helm_broker.Dict.{Dict, lookup, insert as set, delete, values, lookup-insert, lookup-delete}
use helm_broker.Model.Instances.{ServiceInstance}
use helm_broker.Model.Operations.{
  InstanceOperation, BindOperation, create, remove, succeeded, in_progress, is_in_progress,
}
use helm_broker.Storage.Instances as Memory
use helm_broker.Storage.Instances.{Instances}
use helm_broker.Storage.Etcd.{Kv, Codec, IsReliable, ReadsPrefixes, value_list}
use helm_broker.Storage.Etcd.Instances.{upsert, insert, get}
use helm_broker.Storage.Etcd.Operations
use helm_broker.Storage.Etcd.Instances
use helm_broker.Storage.Etcd.Operations.Exclusive.{insert-exclusive}
use helm_broker.Storage.Etcd.BindOperations
use helm_broker.Storage.Etcd.Instances.Refines.{Refines, Simulates, driver-Simulates}

-- The values of the keys with a prefix.
unfoldable with_prefix : String → Dict String → List String
with_prefix p [] = []
with_prefix p ((k, v) ∷ s) =
    let rest = with_prefix p s in if starts_with k p then v ∷ rest else rest

with_prefix-lookup :
    (p rest v : String) (s : Dict String) (test : String → Bool)
    → lookup (p ++ rest) s ≡ some v
    → test v ≡ true
    → exists_in test (with_prefix p s) ≡ true
unfolding with_prefix lookup exists_in
with_prefix-lookup p rest v [] test h q = ground arith
with_prefix-lookup p rest v ((k, w) ∷ s) test h q = elim (Bool-cases (k == (p ++ rest))) [
  | inl e ↦
      let starts : starts_with k p ≡ true =
        ap (λ x. starts_with x p) ((eq_iff k (p ++ rest)).0 e) ∙ starts_with-append p rest in
      ground arith
  | inr e ↦ ground (arith, with_prefix-lookup p rest v s test)
]

abbrev kv : Kv (Dict String)
kv = record {
  get = λ k s.
      if is_empty k
      then err (plain "etcdserver: key is not provided")
      else ok (value_list (lookup k s));
  get_prefix = λ p s. ok (with_prefix p s);
  get_from_start = λ s. ok (values s);
  put = λ k v s.
      if is_empty k
      then (err (plain "etcdserver: key is not provided"), s)
      else (ok (found (lookup k s)), set k v s);
  delete = λ k s.
      if is_empty k
      then (err (plain "etcdserver: key is not provided"), s)
      else (ok (if found (lookup k s) then 1 else 0), delete k s);
  delete_prev = λ k s.
      if is_empty k
      then (err (plain "etcdserver: key is not provided"), s)
      else (ok (value_list (lookup k s)), delete k s);
}

abbrev reliable : IsReliable kv
reliable = record {
  value_of = λ s k. lookup k s;
  get_value = λ k s e. rw e refl;
  put_result = λ k v s e. rw e refl;
  put_value = λ k v s j e. rw e (lookup-insert k j v s);
  delete_result = λ k s e. rw e refl;
  delete_value = λ k s j e. rw e (lookup-delete k j s);
  delete_prev_result = λ k s e. rw e refl;
  delete_prev_value = λ k s j e. rw e (lookup-delete k j s);
}

abbrev instance_1 : ServiceInstance
instance_1 = record {
  id = "i-1";
  service_id = "redis-id";
  service_plan_id = "micro-id";
  release_name = "hb-redis-micro";
  namespace = "default";
  release_info = record { release_time = 0; revision = 1; config_values = none };
  provisioning_parameters = none;
  params_hash = "";
}

-- The encoding knows one instance.
abbrev codec : Codec ServiceInstance
codec = record {
  encode = λ i. ok i.id;
  decode = λ t. if t == "i-1" then ok instance_1 else err (plain "gob: unknown type");
}

abbrev cluster : Dict String
cluster = ("i-1", "i-1") ∷ []

abbrev instances : Instances
instances = ("i-1", instance_1) ∷ []

cluster-Refines : Refines kv codec reliable cluster instances
unfolding lookup
cluster-Refines k = elim (Bool-cases ("i-1" == k)) [
  | inl e ↦ rw e (instance_1, refl, refl)
  | inr e ↦ rw e refl
]

driver-Simulates_example :
    Simulates kv codec reliable
      (upsert kv codec (some instance_1) cluster)
      (Memory.upsert (some instance_1) instances)
    × Simulates kv codec reliable
        (insert kv codec (some instance_1) cluster)
        (Memory.insert (some instance_1) instances)
    × (get kv codec "i-1" cluster ≡ Memory.get "i-1" instances)
    × Simulates kv codec reliable
        (Instances.remove kv codec "i-1" cluster)
        (Memory.remove "i-1" instances)
driver-Simulates_example =
    driver-Simulates kv codec reliable instance_1 "i-1" cluster instances ("i-1", refl, refl) refl
      cluster-Refines

abbrev reads : ReadsPrefixes kv reliable
reads = record {
  values_under = λ s p. with_prefix p s;
  get_values = λ p s. refl;
  value_under = λ p rest v s test h q. with_prefix-lookup p rest v s test h q;
}

abbrev done_creation : InstanceOperation
done_creation = record {
  instance_id = "i-1";
  operation_id = "op-1";
  type = create;
  state = succeeded;
  state_description = none;
  provisioning_parameters = none;
  created_at = 0;
}

abbrev removal : InstanceOperation
removal = record done_creation { operation_id = "op-2"; type = remove; state = in_progress }

abbrev operation_codec : Codec InstanceOperation
operation_codec = record {
  encode = λ op. ok op.operation_id;
  decode = λ t. if t == "op-1" then ok done_creation else ok removal;
}

abbrev one_operation : Dict String
one_operation = ("i-1/op-1", "op-1") ∷ []

inserted :
    Operations.insert kv operation_codec 7 (some removal) one_operation
    ≡ (none, ("i-1/op-1", "op-1") ∷ ("i-1/op-2", "op-2") ∷ [])
unfolding Operations.insert lookup with_prefix set
inserted = refl

found_op : lookup (Operations.key "i-1" "op-1") one_operation ≡ some "op-1"
unfolding lookup
found_op = refl

insert-exclusive_example : is_in_progress done_creation.state ≡ false
insert-exclusive_example =
    insert-exclusive kv operation_codec reliable reads 7 removal done_creation "op-1" one_operation
      (("i-1/op-1", "op-1") ∷ ("i-1/op-2", "op-2") ∷ []) "op-1" inserted found_op refl

abbrev bound : BindOperation
bound = record {
  instance_id = "i-1";
  binding_id = "b-1";
  operation_id = "op-1";
  type = create;
  state = succeeded;
  state_description = none;
  created_at = 0;
}

abbrev unbinding : BindOperation
unbinding = record bound { operation_id = "op-2"; type = remove; state = in_progress }

abbrev bind_codec : Codec BindOperation
bind_codec = record {
  encode = λ op. ok op.operation_id;
  decode = λ t. if t == "op-1" then ok bound else ok unbinding;
}

abbrev one_binding : Dict String
one_binding = ("i-1/b-1/op-1", "op-1") ∷ []

inserted_bind :
    BindOperations.insert kv bind_codec 7 unbinding one_binding
    ≡ (none, ("i-1/b-1/op-1", "op-1") ∷ ("i-1/b-1/op-2", "op-2") ∷ [])
unfolding BindOperations.insert lookup with_prefix set
inserted_bind = refl

-- Another binding of the instance is not looked at.
other_binding :
    BindOperations.insert kv bind_codec 7
      (record unbinding { binding_id = "b-2" })
      (("i-1/b-1/op-2", "op-2") ∷ [])
    ≡ (none, ("i-1/b-1/op-2", "op-2") ∷ ("i-1/b-2/op-2", "op-2") ∷ [])
unfolding BindOperations.insert lookup with_prefix set
other_binding = refl

found_bind : lookup (BindOperations.key "i-1" "b-1" "op-1") one_binding ≡ some "op-1"
unfolding lookup
found_bind = refl
