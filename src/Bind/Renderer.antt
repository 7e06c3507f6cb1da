-- ===== src/Bind/Renderer.antt =====
-- internal/bind/renderer.go: the rendering of a bind template as one more template of the chart. `Render` appends the
-- template to the chart that it is given, so it returns this chart with its result. Helm's engine is a parameter.
mod Tests
use Prim.Native.String.{◌++◌ as append_text}
use helm_broker.Common.{
  ℕ, String, ◌≡◌, refl, sym, ap, ◌∙◌, Bool, true, false, Option, none, some, List, [], ◌∷◌, ◌++◌,
  ◌==◌, ◌||◌, ◌⊎◌, arith, eq_refl, eq_iff, plain, wrap, Result, ok, err, Error, if◌then◌else◌,
  Result-cases, inl, inr,
}
use helm_broker.Common.Outcomes.{Outcome, done, failed_with, panicked}
use helm_broker.Dict.{Dict, lookup}
use helm_broker.Model.Addons.{ChartValues}
use helm_broker.Model.Instances.{ServiceInstance}

-- `chart.File`; a nil template of a plan is `none`.
pub record File : Type 0 where
  pub name : String
  pub content : Option String

-- `chart.Chart`, by the name in its metadata, its templates, and what else it has.
pub record TemplateChart (C : Type 0) : Type 0 where
  pub metadata_name : Option String
  pub templates : List File
  pub rest : C

-- `chartutil.ReleaseOptions`, with `IsInstall`
pub record ReleaseOptions : Type 0 where
  pub name : String
  pub namespace : String
  pub revision : ℕ
  pub is_install : Bool

-- `Renderer`, with `chartutil.ToRenderValues` and the engine
pub record Renderer (C V : Type 0) : Type 0 where
  pub to_render_values_caps : TemplateChart C → ChartValues → ReleaseOptions → Result V
  pub engine_render : TemplateChart C → V → Result (Dict String)

abbrev pub bind_file : String
bind_file = "bindTmpl"

-- `createReleaseOptions`
unfoldable pub create_release_options : ServiceInstance → ReleaseOptions
create_release_options i = record {
  name = i.release_name;
  namespace = i.namespace;
  revision = i.release_info.revision;
  is_install = true;
}

module _ {C V : Type 0} (r : Renderer C V) where
  -- `append(ch.Templates, …)`
  abbrev pub with_bind_template : Option String → TemplateChart C → TemplateChart C
  with_bind_template template ch = record ch {
    templates = ch.templates ++ (record { name = bind_file; content = template } ∷ []);
  }

  abbrev rendered : Option String → Outcome String
  rendered none = failed_with (plain "bindTmpl file was not resolved after rendering")
  rendered (some text) = done text

  -- The read of the rendered files, by the name of the chart.
  abbrev resolved_file : Option String → Result (Dict String) → Outcome String
  unfolding lookup
  resolved_file name (err e) = failed_with (wrap "while rendering files" e)
  resolved_file none (ok files) = panicked
  resolved_file (some name) (ok files) =
      rendered (lookup (append_text name (append_text "/" bind_file)) files)

  -- `Render`
  unfoldable pub render :
      Option String → ServiceInstance → TemplateChart C → Outcome String × TemplateChart C
  unfolding create_release_options resolved_file
  render template i ch =
      elim (r.to_render_values_caps ch i.release_info.config_values (create_release_options i)) [
        | err e ↦ (failed_with (wrap "while merging values to render" e), ch)
        | ok values ↦
            let ch' = with_bind_template template ch in
            (resolved_file ch.metadata_name (r.engine_render ch' values), ch')
      ]

abbrev pub has_name : String → List File → Bool
has_name name [] = false
has_name name (f ∷ fs) = f.name == name || has_name name fs

-- The templates that no later one of their name replaces.
unfoldable pub last_of_name : List File → List File
last_of_name [] = []
last_of_name (f ∷ fs) = let rest = last_of_name fs in if has_name f.name fs then rest else f ∷ rest

-- The engine keeps templates by their name, and values do not depend on them.
pub record IsByName {C V : Type 0} (r : Renderer C V) : Type 0 where
  pub engine_by_name :
      (ch : TemplateChart C) (values : V)
      → r.engine_render ch values
        ≡ r.engine_render (record ch { templates = last_of_name ch.templates }) values
  pub values_without_templates :
      (ch : TemplateChart C) (files : List File) (given : ChartValues) (options : ReleaseOptions)
      → r.to_render_values_caps (record ch { templates = files }) given options
        ≡ r.to_render_values_caps ch given options

has_name-again :
    (name : String) (fs : List File) (a b : File)
    → a.name ≡ b.name
    → has_name name ((fs ++ (a ∷ [])) ++ (b ∷ [])) ≡ has_name name (fs ++ (b ∷ []))
has_name-again name [] a b e = rw e (ground arith)
has_name-again name (f ∷ fs) a b e = rw (has_name-again name fs a b e) refl

last_of_name-again :
    (fs : List File) (a b : File)
    → a.name ≡ b.name
    → last_of_name ((fs ++ (a ∷ [])) ++ (b ∷ [])) ≡ last_of_name (fs ++ (b ∷ []))
unfolding last_of_name
last_of_name-again [] a b e = rw ((eq_iff b.name a.name).1 (sym e)) refl
last_of_name-again (f ∷ fs) a b e =
    rw (has_name-again f.name fs a b e, last_of_name-again fs a b e) refl

module _ {C V : Type 0} (r : Renderer C V) where
  -- The chart after the renderings of some bindings.
  unfoldable pub after_renders :
      List (Option String × ServiceInstance) → TemplateChart C → TemplateChart C
  unfolding render
  after_renders [] ch = ch
  after_renders ((template, i) ∷ earlier) ch = after_renders earlier (render r template i ch).1

  module _ (laws : IsByName r) where
    engine-again :
        (template other : Option String) (ch : TemplateChart C) (values : V)
        → r.engine_render (with_bind_template r template (with_bind_template r other ch)) values
          ≡ r.engine_render (with_bind_template r template ch) values
    engine-again template other ch values =
        laws.engine_by_name (with_bind_template r template (with_bind_template r other ch)) values
        ∙ ap (λ fs. r.engine_render (record ch { templates = fs }) values)
            (last_of_name-again ch.templates (record { name = bind_file; content = other })
              (record { name = bind_file; content = template }) refl)
        ∙ sym (laws.engine_by_name (with_bind_template r template ch) values)

    render-with_template :
        (template other : Option String) (i : ServiceInstance) (ch : TemplateChart C)
        → (render r template i (with_bind_template r other ch)).0 ≡ (render r template i ch).0
    unfolding render
    render-with_template template other i ch =
        let given = i.release_info.config_values in
        let options = create_release_options i in
        let same =
          laws.values_without_templates ch (with_bind_template r other ch).templates given
            options in
        elim (Result-cases (r.to_render_values_caps ch given options)) [
          | inl (e, h) ↦ rw (render, same, h) refl
          | inr (v, h) ↦ rw (render, same, h, engine-again template other ch v) refl
        ]

    -- The rendering of a binding leaves the chart, or adds the template to it.
    render-chart :
        (template : Option String) (i : ServiceInstance) (ch : TemplateChart C)
        → ((render r template i ch).1 ≡ ch)
          ⊎ ((render r template i ch).1 ≡ with_bind_template r template ch)
    unfolding render
    render-chart template i ch =
        elim (Result-cases
          (r.to_render_values_caps ch i.release_info.config_values (create_release_options i))) [
            | inl (e, h) ↦ inl (rw (render, h) refl)
            | inr (v, h) ↦ inr (rw (render, h) refl)
          ]

    render-again :
        (template other : Option String) (i j : ServiceInstance) (ch : TemplateChart C)
        → (render r template i (render r other j ch).1).0 ≡ (render r template i ch).0
    render-again template other i j ch = elim (render-chart other j ch) [
      | inl h ↦ ap (λ c. (render r template i c).0) h
      | inr h ↦ ap (λ c. (render r template i c).0) h ∙ render-with_template template other i ch
    ]

    -- What a bind template is rendered to does not depend on the bindings that were rendered with the
    -- same chart before, which have left their templates in it, where the engine keeps of the templates of one
    -- name the last, and the values do not depend on templates.
    pub render-after_renders :
        (template : Option String) (i : ServiceInstance) (ch : TemplateChart C)
        (earlier : List (Option String × ServiceInstance))
        → (render r template i (after_renders earlier ch)).0 ≡ (render r template i ch).0
    unfolding after_renders
    render-after_renders template i ch [] = refl
    render-after_renders template i ch ((other, j) ∷ earlier) =
        render-after_renders template i (render r other j ch).1 earlier
        ∙ render-again template other i j ch
