-- ===== src/Broker/Catalog/Plans.antt =====
-- The plans of the catalog are those that the broker finds in the storage.
use mathlib.Core.Bool.{false≢true}
use mathlib.Core.List.{Perm}
use helm_broker.Common.{
  String, ◌≡◌, refl, ap, sym, ◌∙◌, List, [], ◌∷◌, ◌==◌, ◌||◌, exists_in, exists_in-perm, found,
  eq_iff, inl, inr, Option-cases, Bool-cases,
}
use helm_broker.Dict.{Dict, lookup, values}
use helm_broker.Dict.Entries.{Entries, HasDistinctKeys, exists-lookup, lookup-exists}
use helm_broker.Model.Addons.{Addon, AddonPlan}
use helm_broker.Broker.Catalog.{service_plans, convert}

exists_in-service_plans :
    (i : String) (ps : List AddonPlan)
    → exists_in (λ p. p.id == i) (service_plans ps) ≡ exists_in (λ p. p.id == i) ps
unfolding service_plans exists_in
exists_in-service_plans i [] = refl
exists_in-service_plans i (p ∷ ps) = ap (λ b. (p.id == i) || b) (exists_in-service_plans i ps)

-- In a map that has each plan under its own id, the loop meets an id exactly if a lookup finds it.
exists-found :
    (i : String) (plans : Dict AddonPlan)
    → HasDistinctKeys plans
    → Entries (λ k p. p.id ≡ k) plans
    → exists_in (λ p. p.id == i) (values plans) ≡ found (lookup i plans)
exists-found i plans d k = elim (Bool-cases (exists_in (λ p. p.id == i) (values plans))) [
  | inl e ↦
      let (j, p, at, same) = exists-lookup (λ p. p.id == i) plans d e in
      let key : j ≡ i = sym (k j p at) ∙ (eq_iff p.id i).0 same in
      e ∙ ap found (sym at) ∙ ap (λ x. found (lookup x plans)) key
  | inr e ↦ elim (Option-cases (lookup i plans)) [
    | inl n ↦ e ∙ ap found (sym n)
    | inr (p, at) ↦ absurd (
        false≢true
          (sym e ∙ lookup-exists (λ p. p.id == i) i p plans at ((eq_iff p.id i).1 (k i p at))))
  ]
]

-- The catalog offers a plan id of an addon exactly if the broker finds a plan under that id in the addon, where the
-- plans stand under their own ids and the loop over them visits them in some order.
pub plans-convert :
    (order : List AddonPlan → List AddonPlan) (a : Addon) (i : String)
    → ((ps : List AddonPlan) → Perm (order ps) ps)
    → HasDistinctKeys a.plans
    → Entries (λ k p. p.id ≡ k) a.plans
    → exists_in (λ p. p.id == i) (convert order a).plans ≡ found (lookup i a.plans)
unfolding convert
plans-convert order a i visits d k =
    exists_in-service_plans i (order (values a.plans))
    ∙ exists_in-perm (λ p. p.id == i) (visits (values a.plans))
    ∙ exists-found i a.plans d k
