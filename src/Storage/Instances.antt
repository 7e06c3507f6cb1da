-- ===== src/Storage/Instances.antt =====
-- internal/storage/driver/memory/entity_instance.go: service instances by their id.
use helm_broker.Common.{
  Bool, true, false, ◌≡◌, Option, none, some, List, ◌==◌, if◌then◌else◌, is_empty, found, Error,
  plain, already_exists, not_found, Result, ok, err, arith, eq_iff, not, ◌&&◌, ◌||◌,
}
use helm_broker.Dict.{Dict, lookup, insert as set, delete, values, lookup-insert, lookup-delete}
use helm_broker.Model.Operations.{InstanceId}
use helm_broker.Model.Instances.{ServiceInstance}

abbrev pub Instances : Type 0
Instances = Dict ServiceInstance

-- `Upsert`: whether the instance was replaced, or an error, and the new store.
unfoldable pub upsert : Option ServiceInstance → Instances → Result Bool × Instances
upsert none s = (err (plain "entity may not be nil"), s)
upsert (some i) s =
    if is_empty i.id
    then (err (plain "instance id must be set"), s)
    else if found (lookup i.id s)
    then (ok true, set i.id i s)
    else (ok false, set i.id i s)

-- `Insert`
unfoldable pub insert : Option ServiceInstance → Instances → Option Error × Instances
insert none s = (some (plain "entity may not be nil"), s)
insert (some i) s =
    if is_empty i.id
    then (some (plain "instance id must be set"), s)
    else if found (lookup i.id s)
    then (some already_exists, s)
    else (none, set i.id i s)

-- `Get`
unfoldable pub get : InstanceId → Instances → Result ServiceInstance
get id s = elim (lookup id s) [ none ↦ err not_found | some i ↦ ok i ]

-- `GetAll`; `order` is the order in which `range` visits the map.
unfoldable pub get_all :
    (List ServiceInstance → List ServiceInstance) → Instances → Result (List ServiceInstance)
get_all order s = ok (order (values s))

-- `Remove`
unfoldable pub remove : InstanceId → Instances → Option Error × Instances
remove id s = if not (found (lookup id s)) then (some not_found, s) else (none, delete id s)

-- `Get` after `Upsert` under a set id returns the instance, and under any other key what it did.
pub get-upsert :
    (i : ServiceInstance) (s : Instances) (j : InstanceId)
    → get j (upsert (some i) s).1 ≡ (if (i.id == j) && not (is_empty i.id) then ok i else get j s)
unfolding get upsert
get-upsert i s j = ground (arith, lookup-insert i.id j i s)

-- `Insert` stores the instance if its id is set and new, and changes nothing otherwise.
pub get-insert :
    (i : ServiceInstance) (s : Instances) (j : InstanceId)
    → get j (insert (some i) s).1
      ≡ (if (i.id == j) && not (is_empty i.id || found (lookup i.id s)) then ok i else get j s)
unfolding get insert
get-insert i s j = ground (arith, lookup-insert i.id j i s)

-- `Get` after `Remove` finds nothing under the removed key and changes at no other.
pub get-remove :
    (k : InstanceId) (s : Instances) (j : InstanceId)
    → get j (remove k s).1 ≡ (if k == j then err not_found else get j s)
unfolding get remove
get-remove k s j = ground (arith, lookup-delete k j s, eq_iff k j)
