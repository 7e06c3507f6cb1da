-- ===== src/Storage/Etcd.antt =====
-- internal/storage/driver/etcd: the storage over a key-value store. The client and the encoding of entities are
-- parameters; a client works under the prefix of its entity.
pub mod Instances
pub mod Operations
pub mod BindOperations
pub mod Addons
pub mod Charts
mod Tests
use Prim.Native.String.{◌++◌}
use helm_broker.Common.{
  Error, zero, suc, plain, wrap, not_found, exists_in, ℕ, String, ◌≡◌, Bool, true, false, Option,
  none, some, List, [], ◌∷◌, ◌==◌, Result, ok, err, if◌then◌else◌, found, is_empty,
}

-- `clientv3.KV`, as the driver uses it, over a state of the cluster.
pub record Kv (S : Type 0) : Type 0 where
  -- `Get`: the values of a key
  pub get : String → S → Result (List String)
  -- `Get` with a prefix: the values of all keys that start with it, in the order of the keys
  pub get_prefix : String → S → Result (List String)
  -- `Get` of all keys from "\x00" on, in the order of the keys
  pub get_from_start : S → Result (List String)
  -- `Put` with the previous value: whether there was one
  pub put : String → String → S → Result Bool × S
  -- `Delete`: how many keys it deleted
  pub delete : String → S → Result ℕ × S
  -- `Delete` with the previous values of the keys that it deleted
  pub delete_prev : String → S → Result (List String) × S

-- `encoding/gob` for one type.
pub record Codec (A : Type 0) : Type 0 where
  pub encode : A → Result String
  pub decode : String → Result A

-- The error of a `Put`.
abbrev pub put_error : Result Bool → Option Error
put_error (ok replaced) = none
put_error (err e) = some (wrap "while calling database on put" e)

-- The error of a `Delete`, by how many keys it deleted.
abbrev pub deletion_error : Result ℕ → Option Error
deletion_error (err e) = some (wrap "while calling database" e)
deletion_error (ok zero) = some not_found
deletion_error (ok (suc zero)) = none
deletion_error (ok (suc (suc n))) =
    some (plain "more than one element matching requested id, should never happen")

abbrev pub value_list : Option String → List String
value_list none = []
value_list (some v) = v ∷ []

-- The documented behaviour of a cluster that is reached: a map from keys to values, where the client refuses the
-- empty key.
pub record IsReliable {S : Type 0} (kv : Kv S) : Type 0 where
  pub value_of : S → String → Option String
  pub get_value :
      (k : String) (s : S) → is_empty k ≡ false → kv.get k s ≡ ok (value_list (value_of s k))
  pub put_result :
      (k v : String) (s : S) → is_empty k ≡ false → (kv.put k v s).0 ≡ ok (found (value_of s k))
  pub put_value :
      (k v : String) (s : S) (j : String)
      → is_empty k ≡ false
      → value_of (kv.put k v s).1 j ≡ (if k == j then some v else value_of s j)
  pub delete_result :
      (k : String) (s : S)
      → is_empty k ≡ false
      → (kv.delete k s).0 ≡ ok (if found (value_of s k) then 1 else 0)
  pub delete_value :
      (k : String) (s : S) (j : String)
      → is_empty k ≡ false
      → value_of (kv.delete k s).1 j ≡ (if k == j then none else value_of s j)
  pub delete_prev_result :
      (k : String) (s : S)
      → is_empty k ≡ false
      → (kv.delete_prev k s).0 ≡ ok (value_list (value_of s k))
  pub delete_prev_value :
      (k : String) (s : S) (j : String)
      → is_empty k ≡ false
      → value_of (kv.delete_prev k s).1 j ≡ (if k == j then none else value_of s j)

-- The documented behaviour of reads by prefix: they give the value of every key that starts with the prefix.
pub record ReadsPrefixes {S : Type 0} (kv : Kv S) (reliable : IsReliable kv) : Type 0 where
  pub values_under : S → String → List String
  pub get_values : (p : String) (s : S) → kv.get_prefix p s ≡ ok (values_under s p)
  pub value_under :
      (p rest v : String) (s : S) (test : String → Bool)
      → reliable.value_of s (p ++ rest) ≡ some v
      → test v ≡ true
      → exists_in test (values_under s p) ≡ true

-- The encoding has a text for the entity and restores the entity from it.
abbrev pub IsEncoded : {A : Type 0} → Codec A → A → Type 0
IsEncoded codec a = (t : String) × (codec.encode a ≡ ok t) × (codec.decode t ≡ ok a)
