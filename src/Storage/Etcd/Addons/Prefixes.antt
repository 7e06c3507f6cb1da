-- ===== src/Storage/Etcd/Addons/Prefixes.antt =====
-- `FindAll` reads by a prefix that does not end where the namespace does.
use Prim.Native.String.{◌++◌}
use text.Mathlib.TextLemmas.{append_assoc}
use helm_broker.Common.{
  String, ◌≡◌, sym, ap, ◌∙◌, Bool, true, false, some, List, [], ◌∷◌, ◌==◌, arith, is_empty,
  exists_in, eq_refl, inl, inr,
}
use helm_broker.Common.Keys.{append-not_empty}
use helm_broker.Common.Outcomes.{Outcome-cases, Outcome, done, failed_with, panicked}
use helm_broker.Model.Addons.{Addon, AddonId, Namespace}
use helm_broker.Storage.Etcd.{Kv, IsReliable, ReadsPrefixes}
use helm_broker.Storage.Etcd.Addons.{id_key, id_prefix_for_namespace, decode_each, find_all}
use helm_broker.Storage.Etcd.Addons.Dso.{Encoding, decode_addon}

abbrev pub has_id : AddonId → Addon → Bool
has_id i a = a.id == i

abbrev shows_id : AddonId → Outcome Addon → Bool
shows_id i (done a) = has_id i a
shows_id i (failed_with x) = false
shows_id i panicked = false

module _ {S : Type 0} (kv : Kv S) (e : Encoding) where
  decode_each-exists :
      (i : AddonId) (vs : List String) (out : List Addon)
      → decode_each kv e vs ≡ done out
      → exists_in (λ v. shows_id i (decode_addon e v)) vs ≡ true
      → exists_in (has_id i) out ≡ true
  unfolding decode_each exists_in
  decode_each-exists i [] out h x = absurd (ground arith)
  decode_each-exists i (v ∷ vs) out h x = elim (Outcome-cases (decode_addon e v)) [
    | inl (a, p) ↦ elim (Outcome-cases (decode_each kv e vs)) [
      | inl (later, q) ↦ ground (arith, decode_each-exists i vs later q)
      | inr (inl (y, q)) ↦ absurd (ground arith)
      | inr (inr q) ↦ absurd (ground arith)
    ]
    | inr (inl (y, p)) ↦ absurd (ground arith)
    | inr (inr p) ↦ absurd (ground arith)
  ]

  -- The key of an addon in a longer namespace starts with the prefix of the shorter one.
  id_key-longer :
      (namespace suffix : Namespace) (i : AddonId)
      → is_empty namespace ≡ false
      → id_key (namespace ++ suffix) i ≡ id_prefix_for_namespace namespace ++ (suffix ++ ("/" ++ i))
  unfolding id_key id_prefix_for_namespace
  id_key-longer namespace suffix i h =
      rw (h, append-not_empty namespace suffix h)
        (ap (λ x. x ++ ("/" ++ i)) (sym (append_assoc "id/ns/" namespace suffix))
          ∙ append_assoc ("id/ns/" ++ namespace) suffix ("/" ++ i))

  module _ (reliable : IsReliable kv) (prefixes : ReadsPrefixes kv reliable) where
    find_all-reads :
        (namespace : Namespace) (out : List Addon) (s : S)
        → find_all kv e namespace s ≡ done out
        → decode_each kv e (prefixes.values_under s (id_prefix_for_namespace namespace)) ≡ done out
    unfolding find_all
    find_all-reads namespace out s h =
        ground (arith, prefixes.get_values (id_prefix_for_namespace namespace) s)

    -- Over a cluster that is reached, where an addon is stored under its id in a namespace whose name starts with
    -- that of another: `FindAll` of the other namespace, if it returns addons, returns one with that id.
    pub find_all-longer :
        (namespace suffix : Namespace) (b : Addon) (v : String) (s : S) (out : List Addon)
        → is_empty namespace ≡ false
        → reliable.value_of s (id_key (namespace ++ suffix) b.id) ≡ some v
        → decode_addon e v ≡ done b
        → find_all kv e namespace s ≡ done out
        → exists_in (has_id b.id) out ≡ true
    find_all-longer namespace suffix b v s out h stored d found =
        decode_each-exists b.id (prefixes.values_under s (id_prefix_for_namespace namespace)) out
          (find_all-reads namespace out s found)
          (prefixes.value_under (id_prefix_for_namespace namespace) (suffix ++ ("/" ++ b.id)) v s
            (λ w. shows_id b.id (decode_addon e w))
            (ap (reliable.value_of s) (sym (id_key-longer namespace suffix b.id h)) ∙ stored)
            (ap (shows_id b.id) d ∙ eq_refl b.id))
