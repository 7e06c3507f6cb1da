-- ===== src/Storage/Etcd/Instances.antt =====
-- internal/storage/driver/etcd/entity_instance.go: service instances by their id.
pub mod Refines
use helm_broker.Common.{
  ℕ, zero, suc, Bool, true, false, String, Option, none, some, List, [], ◌∷◌, if◌then◌else◌,
  is_empty, Error, plain, wrap, already_exists, not_found, Result, ok, err, wrap_result,
}
use helm_broker.Model.Operations.{InstanceId}
use helm_broker.Model.Instances.{ServiceInstance}
use helm_broker.Storage.Etcd.{Kv, Codec, put_error, deletion_error}

module _ {S : Type 0} (kv : Kv S) (codec : Codec ServiceInstance) where
  -- The write of `Upsert`.
  put_encoded : InstanceId → Result String → S → Result Bool × S
  put_encoded id (err e) s = (err (wrap "while encoding entity" e), s)
  put_encoded id (ok text) s =
      let (r, s') = kv.put id text s in (wrap_result "while calling database on put" r, s')

  -- `Upsert`: whether the instance was replaced, or an error.
  unfoldable pub upsert : Option ServiceInstance → S → Result Bool × S
  unfolding put_encoded
  upsert none s = (err (plain "entity may not be nil"), s)
  upsert (some i) s =
      if is_empty i.id
      then (err (plain "instance id must be set"), s)
      else put_encoded i.id (codec.encode i) s

  -- The look at the key and the write of `Insert`.
  put_new : InstanceId → String → Result (List String) → S → Option Error × S
  put_new id text (err e) s = (some (wrap "while calling database on get" e), s)
  put_new id text (ok (v ∷ vs)) s = (some already_exists, s)
  put_new id text (ok []) s = let (r, s') = kv.put id text s in (put_error r, s')

  insert_encoded : InstanceId → Result String → S → Option Error × S
  unfolding put_new
  insert_encoded id (err e) s = (some (wrap "while encoding entity" e), s)
  insert_encoded id (ok text) s = put_new id text (kv.get id s) s

  -- `Insert`
  unfoldable pub insert : Option ServiceInstance → S → Option Error × S
  unfolding insert_encoded
  insert none s = (some (plain "entity may not be nil"), s)
  insert (some i) s =
      if is_empty i.id
      then (some (plain "instance id must be set"), s)
      else insert_encoded i.id (codec.encode i) s

  abbrev decoded_one : Result (List String) → Result ServiceInstance
  decoded_one (err e) = err (wrap "while calling database" e)
  decoded_one (ok []) = err not_found
  decoded_one (ok (v ∷ [])) = wrap_result "while decoding single DSO" (codec.decode v)
  decoded_one (ok (v ∷ w ∷ vs)) =
      err (plain "more than one element matching requested id, should never happen")

  -- `Get`
  unfoldable pub get : InstanceId → S → Result ServiceInstance
  get id s = decoded_one (kv.get id s)

  -- The loop of `GetAll`.
  decode_all : List String → Result (List ServiceInstance)
  decode_all [] = ok []
  decode_all (v ∷ vs) =
      let rest = decode_all vs in
      elim (codec.decode v) [
        | err e ↦ err (wrap "while decoding DSO collection" e)
        | ok i ↦ elim rest [ err e ↦ err e | ok out ↦ ok (i ∷ out) ]
      ]

  -- `GetAll`
  unfoldable pub get_all : S → Result (List ServiceInstance)
  unfolding decode_all
  get_all s = elim (kv.get_from_start s) [
    | err e ↦ err (wrap "while get collection from storage" e)
    | ok vs ↦ decode_all vs
  ]

  -- `Remove`
  unfoldable pub remove : InstanceId → S → Option Error × S
  remove id s = let (r, s') = kv.delete id s in (deletion_error r, s')
