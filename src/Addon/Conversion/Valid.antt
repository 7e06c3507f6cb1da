-- ===== src/Addon/Conversion/Valid.antt =====
-- A form that is valid is converted without a panic.
use helm_broker.Common.{
  String, ◌≡◌, ◌≢◌, refl, sym, ◌∙◌, Bool, true, false, Option, none, some, List, [], ◌∷◌, ◌++◌,
  Error, arith, inl, inr, Option-cases, Result-cases, found, exists_in, exists_in-perm,
}
use mathlib.Core.List.{Perm}
use mathlib.Core.Bool.{false≢true}
use helm_broker.Common.Outcomes.{Outcome, done, failed_with, panicked, wrap_outcome, and_then}
use helm_broker.Dict.{Dict, insert}
use helm_broker.Model.Addons.{AddonPlan, ChartRef}
use helm_broker.Model.Charts.{Chart}
use helm_broker.Addon.Form.{
  Form, FormMeta, FormPlan, FormPlanMeta, Texts, joined, validate, validate_plan, message_of,
  absent_message, no_plan_message,
}
use helm_broker.Addon.Form as Forms
use helm_broker.Addon.Conversion.{
  chart_ref_of, plan_with, plan_of, plan_to_model, mapped_plans, addon_of, with_meta, to_model,
}

-- A list of messages makes no error only if it is empty.
pub joined-none : (ms : List String) → joined ms ≡ none → ms ≡ []
unfolding joined
joined-none [] h = refl
joined-none (m ∷ ms) h = absurd (ground arith)

pub append-nil_left : (xs ys : List String) → xs ++ ys ≡ [] → xs ≡ []
append-nil_left [] ys h = refl
append-nil_left (x ∷ xs) ys h = absurd (ground arith)

pub append-nil_right : (xs ys : List String) → xs ++ ys ≡ [] → ys ≡ []
append-nil_right [] ys h = h
append-nil_right (x ∷ xs) ys h = absurd (ground arith)

-- The plan has no metadata.
abbrev lacks_meta : String × FormPlan → Bool
lacks_meta p = elim p.1.meta [ none ↦ true | some m ↦ false ]

lacks_meta-invalid : (p : FormPlan) → p.meta ≡ none → found (validate_plan p) ≡ true
unfolding validate_plan
lacks_meta-invalid p e = rw e refl

no_message : (text : String) (e : Option Error) → message_of text e ≡ [] → found e ≢ true
no_message text none h q = false≢true q
no_message text (some e) h q = ground arith

module _ (x : Texts) where
  plan_messages-lacks_meta :
      (ps : Dict FormPlan) → Forms.plan_messages x ps ≡ [] → exists_in lacks_meta ps ≡ false
  unfolding Forms.plan_messages validate_plan exists_in
  plan_messages-lacks_meta [] h = refl
  plan_messages-lacks_meta ((name, p) ∷ ps) h =
      let rest =
        plan_messages-lacks_meta ps (append-nil_right (message_of _ (validate_plan p)) _ h) in
      elim (Option-cases p.meta) [
        | inl e ↦ absurd (
            no_message _ (validate_plan p) (append-nil_left (message_of _ (validate_plan p)) _ h)
              (lacks_meta-invalid p e))
        | inr (m, e) ↦ rw e rest
      ]

  chart_ref_of-no_panic : (c : Option Chart) → chart_ref_of x c ≢ panicked
  unfolding chart_ref_of
  chart_ref_of-no_panic none h = ground arith
  chart_ref_of-no_panic (some ch) h = ground arith

  -- A step of the loop over the plans.
  next-no_panic :
      (text : String) (p : FormPlan) (o : Option FormPlanMeta) (r : Outcome ChartRef)
      (f : AddonPlan → Outcome (Dict AddonPlan))
      → found o ≡ true
      → r ≢ panicked
      → ((plan : AddonPlan) → f plan ≢ panicked)
      → and_then (wrap_outcome text (and_then r (plan_with p o))) f ≢ panicked
  next-no_panic text p (some m) (done ref) f h k g q = g (plan_of p m ref) q
  next-no_panic text p none (done ref) f h k g q = absurd (ground arith)
  next-no_panic text p o (failed_with e) f h k g q = ground arith
  next-no_panic text p o panicked f h k g q = k refl

  mapped_plans-no_panic :
      (c : Option Chart) (ps : Dict FormPlan) (mapped : Dict AddonPlan)
      → exists_in lacks_meta ps ≡ false
      → mapped_plans x c ps mapped ≢ panicked
  unfolding mapped_plans plan_to_model exists_in
  mapped_plans-no_panic c [] mapped h q = ground arith
  mapped_plans-no_panic c ((name, p) ∷ ps) mapped h q =
      next-no_panic _ p p.meta (chart_ref_of x c)
        (λ plan. mapped_plans x c ps (insert plan.id plan mapped)) (ground arith)
        (chart_ref_of-no_panic c)
        (λ plan. mapped_plans-no_panic c ps (insert plan.id plan mapped) (ground arith)) q

  validate-plan_messages :
      (f : Form) → validate x f ≡ none → Forms.plan_messages x (x.plan_order f.plans) ≡ []
  unfolding validate
  validate-plan_messages f h =
      let after_meta = append-nil_right (absent_message f.meta) _ (joined-none _ h) in
      append-nil_left (Forms.plan_messages x (x.plan_order f.plans)) _
        (append-nil_right (no_plan_message f.plans) _ after_meta)

and_then-no_panic :
    {A B : Type 0} (r : Outcome A) (f : A → B)
    → r ≢ panicked
    → and_then r (λ a. done (f a)) ≢ panicked
and_then-no_panic (done a) f h q = ground arith
and_then-no_panic (failed_with e) f h q = ground arith
and_then-no_panic panicked f h q = h refl

-- A valid form has metadata.
validate-meta : (x : Texts) (f : Form) → validate x f ≡ none → absent_message f.meta ≡ []
unfolding validate
validate-meta x f h = append-nil_left (absent_message f.meta) _ (joined-none _ h)

with_meta-no_panic :
    (x : Texts) (c : Option Chart) (f : Form) (o : Option FormMeta)
    → absent_message o ≡ []
    → mapped_plans x c (x.plan_order f.plans) [] ≢ panicked
    → with_meta x c f o ≢ panicked
unfolding with_meta
with_meta-no_panic x c f none h k q = absurd (ground arith)
with_meta-no_panic x c f (some m) h k q = elim (Result-cases (x.new_version m.version)) [
  | inl (e, p) ↦ ground arith
  | inr (v, p) ↦
      and_then-no_panic (mapped_plans x c (x.plan_order f.plans) []) (addon_of x f m v) k
        (ground arith)
]

-- A form that `Validate` accepts is converted without a panic, whatever the orders in which the two visit the
-- plans: to an addon or to an error.
pub validate-to_model :
    (x : Texts) (order : Dict FormPlan → Dict FormPlan) (c : Option Chart) (f : Form)
    → ((ps : Dict FormPlan) → Perm (x.plan_order ps) ps)
    → ((ps : Dict FormPlan) → Perm (order ps) ps)
    → validate x f ≡ none
    → to_model (record x { plan_order = order }) c f ≢ panicked
unfolding to_model
validate-to_model x order c f visits visits' h =
    let present : exists_in lacks_meta (order f.plans) ≡ false =
      exists_in-perm lacks_meta (visits' f.plans)
      ∙ sym (exists_in-perm lacks_meta (visits f.plans))
      ∙ plan_messages-lacks_meta x (x.plan_order f.plans) (validate-plan_messages x f h) in
    let x' = record x { plan_order = order } in
    with_meta-no_panic x' c f f.meta (validate-meta x f h)
      (mapped_plans-no_panic x' c (order f.plans) [] present)
