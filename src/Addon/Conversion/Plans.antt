-- ===== src/Addon/Conversion/Plans.antt =====
-- The addon that a form is converted to.
use mathlib.Core.Path.{subst}
use helm_broker.Common.{
  String, ◌≡◌, refl, ap, ◌∙◌, false, Option, none, some, [], ◌∷◌, Error, ok, is_empty, arith, inl,
  inr, Result-cases, Bool-cases,
}
use helm_broker.Common.Outcomes.{
  Outcome, done, failed_with, panicked, wrap_outcome, and_then, done-injective,
}
use helm_broker.Dict.{Dict, lookup, insert}
use helm_broker.Dict.Entries.{Entries, Entries-insert}
use helm_broker.Model.Addons.{Addon, AddonPlan, ChartRef}
use helm_broker.Model.Charts.{Chart}
use helm_broker.Addon.Form.{
  Form, FormMeta, FormPlan, FormPlanMeta, Texts, missing, joined, validate, validate_meta,
  message_of, absent_message, no_plan_message,
}
use helm_broker.Addon.Form as Forms
use helm_broker.Addon.Conversion.Valid.{joined-none, append-nil_left, append-nil_right}
use helm_broker.Addon.Conversion.{
  chart_ref_of, plan_with, plan_to_model, mapped_plans, with_meta, addon_of, to_model,
}

module _ {A B : Type 0} where
  -- Both parts of a sequence that has a result have one.
  pub and_then-done :
      {P : Type 0} (r : Outcome A) (f : A → Outcome B) {b : B}
      → and_then r f ≡ done b
      → ((a : A) → r ≡ done a → f a ≡ done b → P)
      → P
  and_then-done (done a) f h use' = use' a refl h
  and_then-done (failed_with e) f h use' = absurd (ground arith)
  and_then-done panicked f h use' = absurd (ground arith)

pub wrapped-done :
    {A : Type 0} (text : String) (r : Outcome A) {a : A} → wrap_outcome text r ≡ done a → r ≡ done a
wrapped-done text (done b) h = h
wrapped-done text (failed_with e) h = absurd (ground arith)
wrapped-done text panicked h = absurd (ground arith)

module _ (x : Texts) (c : Option Chart) where
  -- The plan stands under its own id, and with the reference of the chart.
  abbrev pub IsPlan : String → AddonPlan → Type 0
  IsPlan k p = (p.id ≡ k) × (chart_ref_of x c ≡ done p.chart_ref)

  plan_with-ref :
      (p : FormPlan) (o : Option FormPlanMeta) (ref : ChartRef) {plan : AddonPlan}
      → plan_with p o ref ≡ done plan
      → ref ≡ plan.chart_ref
  plan_with-ref p none ref h = absurd (ground arith)
  plan_with-ref p (some m) ref h = ground arith

  mapped_plans-IsPlan :
      (ps : Dict FormPlan) (mapped plans : Dict AddonPlan)
      → mapped_plans x c ps mapped ≡ done plans
      → Entries IsPlan mapped
      → Entries IsPlan plans
  unfolding mapped_plans plan_to_model
  mapped_plans-IsPlan [] mapped plans h k = subst (Entries IsPlan) (ground arith) k
  mapped_plans-IsPlan ((name, p) ∷ ps) mapped plans h k =
      and_then-done _ (λ plan. mapped_plans x c ps (insert plan.id plan mapped)) h
        λ plan e l.
          and_then-done (chart_ref_of x c) (plan_with p p.meta) (wrapped-done _ _ e) λ ref q m.
            mapped_plans-IsPlan ps (insert plan.id plan mapped) plans l (
              Entries-insert IsPlan plan.id plan mapped
                (refl, q ∙ ap done (plan_with-ref p p.meta ref m)) k)

  no_entry : (k : String) (v : AddonPlan) → ¬ (lookup k [] ≡ some v)
  unfolding lookup
  no_entry k v h = ground arith

  -- What the addon takes from the metadata.
  abbrev pub IsFrom : Form → Addon → Type 0
  IsFrom f a =
      (m : FormMeta) × (f.meta ≡ some m)
      × (a.id ≡ m.id)
      × (a.name ≡ m.name)
      × (x.new_version m.version ≡ ok a.version)
      × Entries IsPlan a.plans

  with_meta-IsFrom :
      (f : Form) (o : Option FormMeta) (a : Addon)
      → f.meta ≡ o
      → with_meta x c f o ≡ done a
      → IsFrom f a
  unfolding with_meta
  with_meta-IsFrom f none a e h = absurd (ground arith)
  with_meta-IsFrom f (some m) a e h = elim (Result-cases (x.new_version m.version)) [
    | inl (err', q) ↦ absurd (ground arith)
    | inr (v, q) ↦
        let computed : and_then (mapped_plans x c (x.plan_order f.plans) [])
              (λ plans. done (addon_of x f m v plans))
            ≡ done a =
          ground arith in
        and_then-done (mapped_plans x c (x.plan_order f.plans) [])
          (λ plans. done (addon_of x f m v plans)) computed
          λ plans k l. subst (IsFrom f) (done-injective l) (
            m,
            e,
            refl,
            refl,
            q,
            mapped_plans-IsPlan (x.plan_order f.plans) [] plans k
                (λ k' v' r. absurd (no_entry k' v' r)),
          )
  ]

message_of-none : (text : String) (e : Option Error) → message_of text e ≡ [] → e ≡ none
message_of-none text none h = refl
message_of-none text (some e) h = absurd (ground arith)

missing-set : (value message : String) → missing value message ≡ [] → is_empty value ≡ false
missing-set value message h = elim (Bool-cases (is_empty value)) [
  | inl e ↦ absurd (ground arith)
  | inr e ↦ e
]

-- The metadata of a valid form has an id and a name.
validate-named :
    (x : Texts) (f : Form) (m : FormMeta)
    → validate x f ≡ none
    → f.meta ≡ some m
    → (is_empty m.id ≡ false) × (is_empty m.name ≡ false)
unfolding validate validate_meta
validate-named x f m h e =
    let messages : Forms.meta_messages x (some m) ≡ [] =
      subst (λ o. Forms.meta_messages x o ≡ []) e
        (append-nil_left (Forms.meta_messages x f.meta) _ (
          append-nil_right (Forms.plan_messages x (x.plan_order f.plans)) _ (
            append-nil_right (no_plan_message f.plans) _
              (append-nil_right (absent_message f.meta) _ (joined-none _ h))))) in
    let valid = joined-none _ (message_of-none _ (validate_meta m) messages) in
    (
      missing-set m.id _ (append-nil_left (missing m.id _) _ valid),
      missing-set m.name _
          (append-nil_left (missing m.name _) _ (append-nil_right (missing m.id _) _ valid)),
    )

-- An addon that a valid form is converted to has an id, a name and the version of the form, and each of its plans
-- stands under its own id and refers to the chart of the addon.
pub to_model-IsPlan :
    (x : Texts) (order : Dict FormPlan → Dict FormPlan) (c : Option Chart) (f : Form) (a : Addon)
    → validate x f ≡ none
    → to_model (record x { plan_order = order }) c f ≡ done a
    → (is_empty a.id ≡ false)
      × (is_empty a.name ≡ false)
      × ((m : FormMeta) × (f.meta ≡ some m) × (x.new_version m.version ≡ ok a.version))
      × Entries (IsPlan x c) a.plans
unfolding to_model
to_model-IsPlan x order c f a h k =
    let (m, e, i, n, v, plans) =
      with_meta-IsFrom (record x { plan_order = order }) c f f.meta a refl k in
    let named = validate-named x f m h e in
    (ap is_empty i ∙ named.0, ap is_empty n ∙ named.1, (m, e, v), plans)
