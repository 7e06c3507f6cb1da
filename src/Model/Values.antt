-- ===== src/Model/Values.antt =====
-- JSON values: the `map[string]interface{}` of request parameters and chart values, with the
-- comparison that `reflect.DeepEqual` makes on them.
pub mod Merge
pub mod Compare
pub mod Paths
use helm_broker.Common.{ℕ, suc, String, Bool, Option, none, some, ◌==◌, if◌then◌else◌}

-- A number stands as a code: the program only compares numbers.
mutual
  pub data Value : Type 0 where
    null : Value
    boolean : Bool → Value
    num : ℕ → Value
    str : String → Value
    arr : Items → Value
    obj : Fields → Value

  pub data Items : Type 0 where
    no_items : Items
    item : Value → Items → Items

  pub data Fields : Type 0 where
    no_fields : Fields
    field : String → Value → Fields → Fields

-- `v, exists := m[k]`
unfoldable pub lookup_field : String → Fields → Option Value
lookup_field k no_fields = none
lookup_field k (field j v fs) = if j == k then some v else lookup_field k fs

-- `m[k] = v`
unfoldable pub set_field : String → Value → Fields → Fields
set_field k v no_fields = field k v no_fields
set_field k v (field j w fs) = if j == k then field k v fs else field j w (set_field k v fs)

-- `len(m)`
unfoldable pub field_count : Fields → ℕ
field_count no_fields = 0
field_count (field k v fs) = suc (field_count fs)
