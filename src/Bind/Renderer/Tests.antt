-- ===== src/Bind/Renderer/Tests.antt =====
-- A chart that two bindings render their templates with.
use Prim.Native.String.{◌++◌ as append_text}
use helm_broker.Common.{
  String, ◌≡◌, refl, sym, ap, ◌∙◌, Option, none, some, List, [], ◌∷◌, ◌==◌, eq_iff, ok, Bool-cases,
  inl, inr, length,
}
use helm_broker.Common.Outcomes.{done}
use helm_broker.Dict.{Dict, insert}
use helm_broker.Model.Instances.{ServiceInstance}
use helm_broker.Bind.Renderer.{
  File, TemplateChart, Renderer, IsByName, has_name, last_of_name, render, after_renders,
  render-after_renders,
}

abbrev text_of : Option String → String
text_of none = ""
text_of (some text) = text

files_of : List File → Dict String
unfolding insert
files_of [] = []
files_of (f ∷ fs) = insert (append_text "redis/" f.name) (text_of f.content) (files_of fs)

-- An engine that renders each template to its text.
abbrev renderer : Renderer (Unit {0}) (Unit {0})
unfolding files_of last_of_name
renderer = record {
  to_render_values_caps = λ ch given options. ok tt;
  engine_render = λ ch values. ok (files_of (last_of_name ch.templates));
}

has_name-last_of_name :
    (name : String) (fs : List File) → has_name name (last_of_name fs) ≡ has_name name fs
unfolding last_of_name
has_name-last_of_name name [] = refl
has_name-last_of_name name (f ∷ fs) = elim (Bool-cases (has_name f.name fs)) [
  | inl h ↦
      rw (h, has_name-last_of_name name fs)
        (elim (Bool-cases (f.name == name)) [
          | inl e ↦ rw e (ap (λ n. has_name n fs) (sym ((eq_iff f.name name).0 e)) ∙ h)
          | inr e ↦ rw e refl
        ])
  | inr h ↦ rw (h, has_name-last_of_name name fs) refl
]

last_of_name-twice : (fs : List File) → last_of_name (last_of_name fs) ≡ last_of_name fs
unfolding last_of_name
last_of_name-twice [] = refl
last_of_name-twice (f ∷ fs) = elim (Bool-cases (has_name f.name fs)) [
  | inl h ↦ rw (h, last_of_name-twice fs) refl
  | inr h ↦ rw (h, has_name-last_of_name f.name fs, h, last_of_name-twice fs) refl
]

renderer-IsByName : IsByName renderer
unfolding renderer
renderer-IsByName = record {
  engine_by_name = λ ch values. ap (λ fs. ok (files_of fs)) (sym (last_of_name-twice ch.templates));
  values_without_templates = λ ch files given options. refl;
}

abbrev redis : ServiceInstance
redis = record {
  id = "instance-1";
  service_id = "redis";
  service_plan_id = "micro";
  release_name = "hb-redis";
  namespace = "stage";
  release_info = record { release_time = 0; revision = 1; config_values = none };
  provisioning_parameters = none;
  params_hash = "";
}

abbrev chart : TemplateChart (Unit {0})
chart = record {
  metadata_name = some "redis";
  templates = record { name = "service"; content = some "kind: Service" } ∷ [];
  rest = tt;
}

rendered : (render renderer (some "credential") redis chart).0 ≡ done "credential"
unfolding render renderer last_of_name files_of
rendered = refl

left_in_chart :
    length
      (after_renders renderer ((some "first", redis) ∷ (some "second", redis) ∷ []) chart).templates
    ≡ 3
unfolding after_renders render renderer
left_in_chart = refl

render-after_renders_example :
    (render renderer
      (some "credential")
      redis
      (after_renders renderer ((some "other", redis) ∷ []) chart)).0
    ≡ (render renderer (some "credential") redis chart).0
render-after_renders_example =
    render-after_renders renderer renderer-IsByName (some "credential") redis chart
      ((some "other", redis) ∷ [])
