-- ===== src/Model/Values/Paths.antt =====
-- The values of a merge below a path of keys.
use helm_broker.Common.{
  String, ◌≡◌, ap, ◌∙◌, Bool-cases, Bool, true, false, Option, none, some, List, [], ◌∷◌, arith,
  ◌==◌, Option-cases, inl, inr,
}
use mathlib.Core.Path.{subst}
use helm_broker.Model.Values.{Value, obj, Fields, no_fields, field, lookup_field}
use helm_broker.Model.Values.Merge.{
  merge_values, merged_value, IsMap, HasMaps, lookup-merge_values, merged_at,
}

abbrev pub is_object : Value → Bool
is_object (obj fs) = true
is_object _ = false

-- The value under the first key of a path, and the keys that are left.
abbrev pub child : String → Value → Option Value
child k (obj fs) = lookup_field k fs
child k _ = none

-- The value under the keys of a path, from the outermost on.
unfoldable pub lookup_path : List String → Value → Option Value
lookup_path [] v = some v
lookup_path (k ∷ ks) v = elim (child k v) [ none ↦ none | some w ↦ lookup_path ks w ]

lookup-HasMaps :
    (k : String) (fs : Fields) {v : Value} → IsMap fs → lookup_field k fs ≡ some v → HasMaps v
unfolding lookup_field
lookup-HasMaps k no_fields m e = absurd (cc)
lookup-HasMaps k (field j w fs) {v} m e = elim (Bool-cases (j == k)) [
  | inl q ↦ let same : w ≡ v = ground arith in subst HasMaps same m.1
  | inr q ↦ lookup-HasMaps k fs m.2 (ground arith)
]

below_path :
    (k : String) (ks : List String) (fs : Fields) {w : Value}
    → lookup_field k fs ≡ some w
    → lookup_path (k ∷ ks) (obj fs) ≡ lookup_path ks w
unfolding lookup_path
below_path k ks fs e = rw (e, lookup_path)

lookup_path-merged_value :
    (ks : List String) (d : Option Value) (w v : Value)
    → HasMaps w
    → lookup_path ks w ≡ some v
    → is_object v ≡ false
    → lookup_path ks (merged_value d w) ≡ some v
unfolding lookup_path merged_value
lookup_path-merged_value ks none w v m e leaf = e
lookup_path-merged_value [] (some d) (obj src) v m e leaf = absurd (ground arith)
lookup_path-merged_value [] (some d) w v m e leaf = e
lookup_path-merged_value (k ∷ ks) (some (obj dest)) (obj src) v m e leaf =
    elim (Option-cases (lookup_field k src)) [
      | inl q ↦ absurd (ground arith)
      | inr (w, q) ↦
          below_path k ks (merge_values dest src)
            (lookup-merge_values k dest src m ∙ ap (merged_at (lookup_field k dest)) q)
          ∙ (lookup_path-merged_value ks (lookup_field k dest) w v (lookup-HasMaps k src m q)
              (ground arith) leaf)
    ]
lookup_path-merged_value (k ∷ ks) (some d) (obj src) v m e leaf = e
lookup_path-merged_value (k ∷ ks) (some d) w v m e leaf = e

-- If no map of `src` has a key twice, a value of `src` that is no map, at any depth, is the value of the
-- merge at its path.
pub lookup_path-merge_values :
    (k : String) (ks : List String) (dest src : Fields) (v : Value)
    → IsMap src
    → lookup_path (k ∷ ks) (obj src) ≡ some v
    → is_object v ≡ false
    → lookup_path (k ∷ ks) (obj (merge_values dest src)) ≡ some v
unfolding merge_values
lookup_path-merge_values k ks dest src v m e leaf =
    lookup_path-merged_value (k ∷ ks) (some (obj dest)) (obj src) v m e leaf
