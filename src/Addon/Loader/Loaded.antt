-- ===== src/Addon/Loader/Loaded.antt =====
-- What `loadDir` loads: one chart, and the addon whose plans refer to it.
use mathlib.Core.List.{Perm}
use mathlib.Core.Path.{subst}
use helm_broker.Common.{
  String, ◌≡◌, ◌≢◌, refl, ap, sym, ◌∙◌, false, Option, none, some, List, [], ◌∷◌, Error, Result, ok,
  err, is_empty, arith,
}
use helm_broker.Common.Outcomes.{
  Outcome, done, failed_with, panicked, wrap_outcome, and_then, outcome_of, done-injective,
}
use helm_broker.Dict.{Dict}
use helm_broker.Dict.Entries.{Entries}
use helm_broker.Model.Addons.{Addon}
use helm_broker.Model.Charts.{Chart}
use helm_broker.Addon.Form.{Form, FormPlan, Texts, validate}
use helm_broker.Addon.Conversion.Valid.{validate-to_model}
use helm_broker.Addon.Conversion.Plans.{IsPlan, to_model-IsPlan, and_then-done, wrapped-done}
use helm_broker.Addon.Loader.{
  Directory, load_chart_from_dir, create_form_from_addon_dir, loaded_form, load_dir,
}

of_result-done : {A : Type 0} (r : Result A) {a : A} → outcome_of r ≡ done a → r ≡ ok a
of_result-done (ok b) h = ap ok (done-injective h)
of_result-done (err e) h = absurd (ground arith)

of_result-no_panic :
    {A : Type 0} (text : String) (r : Result A) → wrap_outcome text (outcome_of r) ≢ panicked
of_result-no_panic text (ok a) h = ground arith
of_result-no_panic text (err e) h = ground arith

wrapped-no_panic :
    {A : Type 0} (text : String) (r : Outcome A) → r ≢ panicked → wrap_outcome text r ≢ panicked
wrapped-no_panic text (done a) k h = ground arith
wrapped-no_panic text (failed_with e) k h = ground arith
wrapped-no_panic text panicked k h = k refl

and_then-no_panic :
    {A B : Type 0} (r : Outcome A) (f : A → Outcome B)
    → r ≢ panicked
    → ((a : A) → f a ≢ panicked)
    → and_then r f ≢ panicked
and_then-no_panic (done a) f k l h = l a h
and_then-no_panic (failed_with e) f k l h = ground arith
and_then-no_panic panicked f k l h = k refl

-- The addon has an id and a name, and its plans stand under their ids and refer to the chart.
abbrev pub IsLoaded : Texts → Directory → Addon → List Chart → Type 0
IsLoaded x dir a charts =
    (c : Chart) × (charts ≡ c ∷ [])
    × (load_chart_from_dir dir ≡ ok c)
    × (is_empty a.id ≡ false)
    × (is_empty a.name ≡ false)
    × Entries (IsPlan x (some c)) a.plans

module _ (x : Texts) (order : Dict FormPlan → Dict FormPlan) (dir : Directory) where
  loaded_form-IsLoaded :
      (c : Chart) (f : Form) (e : Option Error) (a : Addon) (charts : List Chart)
      → load_chart_from_dir dir ≡ ok c
      → validate x f ≡ e
      → loaded_form dir x order c f e ≡ done (a, charts)
      → IsLoaded x dir a charts
  unfolding loaded_form
  loaded_form-IsLoaded c f (some e) a charts l v h = absurd (ground arith)
  loaded_form-IsLoaded c f none a charts l v h =
      and_then-done _ (λ b. done (b, c ∷ [])) h
        λ b k m.
          let same = done-injective m in
          let (i, n, _, plans) = to_model-IsPlan x order (some c) f b v (wrapped-done _ _ k) in
          (
            c,
            sym (ap (λ p. p.1) same),
            l,
            ap (λ p. is_empty p.0.id) (sym same) ∙ i,
            ap (λ p. is_empty p.0.name) (sym same) ∙ n,
            subst (λ p. Entries (IsPlan x (some c)) p.0.plans) same plans,
          )

  loaded_form-no_panic :
      (c : Chart) (f : Form) (e : Option Error)
      → ((ps : Dict FormPlan) → Perm (x.plan_order ps) ps)
      → ((ps : Dict FormPlan) → Perm (order ps) ps)
      → validate x f ≡ e
      → loaded_form dir x order c f e ≢ panicked
  unfolding loaded_form
  loaded_form-no_panic c f (some e) p q v h = ground arith
  loaded_form-no_panic c f none p q v h =
      and_then-no_panic _ (λ b. done (b, c ∷ []))
        (wrapped-no_panic _ _ (validate-to_model x order (some c) f p q v)) (λ b r. ground arith) h

  -- What `loadDir` loads is an addon with an id and a name and the one chart of the directory: each plan of the
  -- addon stands under its own id and refers to that chart.
  pub load_dir-IsLoaded :
      (a : Addon) (charts : List Chart)
      → load_dir dir x order ≡ done (a, charts)
      → IsLoaded x dir a charts
  unfolding load_dir
  load_dir-IsLoaded a charts h =
      let chart = wrap_outcome "while loading chart" (outcome_of (load_chart_from_dir dir)) in
      let form =
        wrap_outcome "while mapping buffered files to form"
          (outcome_of (create_form_from_addon_dir dir)) in
      let rest = λ (c : Chart). λ (f : Form). loaded_form dir x order c f (validate x f) in
      and_then-done chart (λ c. and_then form (rest c)) h
        λ c k l. and_then-done form (rest c) l λ f m n.
          loaded_form-IsLoaded c f (validate x f) a charts
            (of_result-done (load_chart_from_dir dir) (wrapped-done "while loading chart" _ k)) refl
            n

  -- `loadDir` does not panic, whatever the directory holds, where the loops over the plans visit them in some order.
  pub load_dir-no_panic :
      ((ps : Dict FormPlan) → Perm (x.plan_order ps) ps)
      → ((ps : Dict FormPlan) → Perm (order ps) ps)
      → load_dir dir x order ≢ panicked
  unfolding load_dir
  load_dir-no_panic p q =
      and_then-no_panic _ _ (of_result-no_panic "while loading chart" (load_chart_from_dir dir))
        λ c.
          and_then-no_panic _ _
            (of_result-no_panic "while mapping buffered files to form"
              (create_form_from_addon_dir dir))
            λ f. loaded_form-no_panic c f (validate x f) p q refl
