-- ===== src/Storage/BindData.antt =====
-- internal/storage/driver/memory/entity_instance_bind_data.go: the credentials of an instance.
use helm_broker.Common.{
  ◌≡◌, Option, none, some, ◌==◌, if◌then◌else◌, is_empty, found, Error, plain, already_exists,
  not_found, Result, ok, err, arith, eq_iff, not, ◌&&◌, ◌||◌,
}
use helm_broker.Dict.{Dict, lookup, insert as set, delete, lookup-insert, lookup-delete}
use helm_broker.Model.Operations.{InstanceId}
use helm_broker.Model.Instances.{InstanceBindData}

abbrev pub BindData : Type 0
BindData = Dict InstanceBindData

-- `Insert`
unfoldable pub insert : Option InstanceBindData → BindData → Option Error × BindData
insert none s = (some (plain "entity may not be nil"), s)
insert (some ibd) s =
    if is_empty ibd.instance_id
    then (some (plain "instance id must be set"), s)
    else if found (lookup ibd.instance_id s)
    then (some already_exists, s)
    else (none, set ibd.instance_id ibd s)

-- `Get`
unfoldable pub get : InstanceId → BindData → Result InstanceBindData
get i s = elim (lookup i s) [ none ↦ err not_found | some ibd ↦ ok ibd ]

-- `Remove`
unfoldable pub remove : InstanceId → BindData → Option Error × BindData
remove i s = if not (found (lookup i s)) then (some not_found, s) else (none, delete i s)

pub get-insert :
    (ibd : InstanceBindData) (s : BindData) (j : InstanceId)
    → get j (insert (some ibd) s).1 ≡ (
        if (ibd.instance_id == j)
          && not (is_empty ibd.instance_id || found (lookup ibd.instance_id s))
        then ok ibd
        else get j s)
unfolding get insert
get-insert ibd s j = ground (arith, lookup-insert ibd.instance_id j ibd s)

pub get-remove :
    (k : InstanceId) (s : BindData) (j : InstanceId)
    → get j (remove k s).1 ≡ (if k == j then err not_found else get j s)
unfolding get remove
get-remove k s j = ground (arith, lookup-delete k j s, eq_iff k j)
