-- ===== src/Addon/Tests.antt =====
-- An addon with a plan, loaded from its form and shown in the catalog.
use Prim.Native.String.{◌++◌}
use mathlib.Core.List.Perm as Perms
use helm_broker.Common.{
  ◌≡◌, ◌≢◌, refl, sym, ap, Bool, String, true, false, Option, none, some, [], ◌∷◌, ok, err, plain,
  ◌==◌, if◌then◌else◌, exists_in, found,
}
use helm_broker.Common.Outcomes.{done, failed_with, panicked}
use helm_broker.Dict.{lookup}
use helm_broker.Dict.Entries.{Entries, HasDistinctKeys}
use helm_broker.Model.Addons.{Addon, AddonPlan, Version}
use helm_broker.Model.Charts.{Chart}
use helm_broker.Model.Addons as Models
use helm_broker.Addon.Form.{Form, FormMeta, FormPlan, Texts, validate}
use helm_broker.Addon.Conversion.{to_model}
use helm_broker.Addon.Conversion.Plans.{to_model-IsPlan}
use helm_broker.Addon.Loader.{Directory, content, not_exist, load_dir}
use helm_broker.Addon.Loader.Archive.{FileSystem, eof, broken, next, type_reg, unpack_archive, load}
use helm_broker.Addon.Loader.Archive.Cleanup.{KeepsDirectories, has_failed, load-exists}
use helm_broker.Addon.Loader.Loaded.{IsLoaded, load_dir-IsLoaded, load_dir-no_panic}
use helm_broker.Broker.Catalog.{convert}
use helm_broker.Broker.Catalog.Plans.{plans-convert}

abbrev one : Version
one = record { original = "1.0"; canonical = "1.0.0" }

abbrev texts : Texts
texts = record {
  quote = λ t. t;
  trim_space = λ t. t;
  new_version = λ t. if t == "1.0" then ok one else err (plain "Invalid Semantic Version");
  plan_order = λ plans. plans;
}

abbrev micro : FormPlan
micro = record {
  meta = some (record {
    id = "micro-id";
    name = "micro";
    description = "A small plan";
    display_name = "Micro";
    bindable = none;
    free = some true;
  });
  schemas_create = some "{}";
  schemas_bind = none;
  schemas_update = none;
  values = none;
  bind_template = none;
}

abbrev meta : FormMeta
meta = record {
  id = "redis-id";
  name = "redis";
  version = "1.0";
  description = "A store";
  display_name = "Redis";
  tags = "database,cache";
  provider_display_name = "";
  long_description = "";
  documentation_url = "";
  support_url = "";
  image_url = "";
  bindable = true;
  provision_only_once = false;
  labels = [];
  requires = [];
  bindings_retrievable = true;
  plan_updatable = none;
}

abbrev form : Form
form = record { meta = some meta; docs_meta = none; plans = ("micro", micro) ∷ [] }

abbrev chart_of : Chart
chart_of = record {
  metadata = some (record { name = "redis-chart"; version = "1.0" });
  content = "";
}

abbrev chart : Option Chart
chart = some chart_of

form-valid : validate texts form ≡ none
unfolding validate
form-valid = refl

abbrev redis : Addon
redis = record {
  id = "redis-id";
  name = "redis";
  version = one;
  description = "A store";
  plans =
      (
        "micro-id",
        record {
          id = "micro-id";
          name = "micro";
          description = "A small plan";
          schemas = ("provision", "{}") ∷ [];
          chart_ref = record { name = "redis-chart"; version = one };
          chart_values = none;
          display_name = "Micro";
          bindable = none;
          free = some true;
          bind_template = none;
        },
      )
      ∷ [];
  metadata = record {
    display_name = "Redis";
    provider_display_name = "";
    long_description = "";
    documentation_url = "";
    support_url = "";
    provision_only_once = false;
    image_url = "";
    labels = some [];
  };
  repository_url = "";
  tags = "database" ∷ "cache" ∷ [];
  requires = [];
  bindable = true;
  bindings_retrievable = true;
  plan_updatable = none;
  docs = [];
  status = Models.unset;
  reason = Models.no_reason;
  message = "";
}

form-redis : to_model texts chart form ≡ done redis
unfolding to_model
form-redis = refl

redis-keyed : Entries (λ k p. p.id ≡ k) redis.plans
redis-keyed k p h =
    ((to_model-IsPlan texts (λ plans. plans) chart form redis form-valid form-redis).3 k p h).0

redis-HasDistinctKeys : HasDistinctKeys redis.plans
unfolding lookup
redis-HasDistinctKeys = (refl, tt)

plans-convert_example :
    exists_in (λ p. p.id == "micro-id") (convert (λ ps. ps) redis).plans
    ≡ found (lookup "micro-id" redis.plans)
plans-convert_example =
    plans-convert (λ ps. ps) redis "micro-id" (λ ps. Perms.refl ps) redis-HasDistinctKeys
      redis-keyed

-- The directory of the addon.
abbrev directory : Directory
directory = record {
  chart_dir = "redis/chart";
  chart_entries = content (record { name = "redis-chart"; is_dir = true } ∷ []);
  load_chart = λ path. content chart_of;
  meta_file = content "meta";
  docs_file = not_exist (plain "no such file");
  plan_entries = content (record { name = "micro"; is_dir = true } ∷ []);
  plan_path = λ plan. none;
  plan_file = λ plan file.
      if file == "meta.yaml"
      then content "micro"
      else if file == "create-instance-schema.json"
      then content "{}"
      else not_exist (plain "no such file");
  parse_meta = λ b. ok (some meta);
  parse_docs = λ b. ok none;
  parse_plan_meta = λ b. ok micro.meta;
  parse_values = λ b. ok none;
  parse_schema = λ b. ok b;
}

directory-redis : load_dir directory texts (λ plans. plans) ≡ done (redis, chart_of ∷ [])
unfolding load_dir helm_broker.Broker.ReleaseName.byte_length
directory-redis = refl

load_dir-IsLoaded_example : IsLoaded texts directory redis (chart_of ∷ [])
load_dir-IsLoaded_example =
    load_dir-IsLoaded texts (λ plans. plans) directory redis (chart_of ∷ []) directory-redis

load_dir-no_panic_example : load_dir directory texts (λ plans. plans) ≢ panicked
load_dir-no_panic_example =
    load_dir-no_panic texts (λ plans. plans) directory (λ ps. Perms.refl ps) (λ ps. Perms.refl ps)

-- A file system in which the one thing that changes is whether the temporary directory is there.
abbrev file_system : FileSystem Bool
file_system = record {
  create_tmp_dir = λ base prefix s. (ok "/tmp/unpacked-addon1", true);
  gzip_reader = λ input. ok (
      next (record { name = "meta.yaml"; typeflag = type_reg; mode = 420; body = "meta" })
        (if input == "cut" then broken (plain "unexpected EOF") else eof));
  join_path = λ dir name. dir ++ ("/" ++ name);
  clean_path = λ path. path;
  stat = λ target s. not_exist (plain "no such file");
  mkdir_all = λ target s. (none, s);
  open_file = λ target mode s. (none, s);
  copy = λ target text s. (none, s);
  remove_all = λ dir s. false;
  directory = λ dir s. directory;
}

abbrev exists_dir : String → Bool → Bool
exists_dir dir s = s

file_system-KeepsDirectories : KeepsDirectories file_system exists_dir
file_system-KeepsDirectories = record {
  created = λ base prefix dir s s' h. sym (ap (λ p. p.1) h);
  mkdir_keeps = λ dir target s h. h;
  open_keeps = λ dir target mode s h. h;
  copy_keeps = λ dir target text s h. h;
  removed = λ dir s. refl;
}

loaded_and_removed :
    load file_system texts (λ plans. plans) "/tmp" "whole" false
    ≡ (done (redis, chart_of ∷ []), false)
unfolding load helm_broker.Broker.ReleaseName.byte_length
loaded_and_removed = refl

failed_and_left :
    load file_system texts (λ plans. plans) "/tmp" "cut" false
    ≡ (failed_with (plain "unexpected EOF"), true)
unfolding load
failed_and_left = refl

load-exists_example :
    exists_dir "/tmp/unpacked-addon1" (load file_system texts (λ plans. plans) "/tmp" "cut" false).1
    ≡ has_failed (unpack_archive file_system "/tmp" "cut" false).0
load-exists_example =
    load-exists file_system exists_dir file_system-KeepsDirectories texts (λ plans. plans) "/tmp"
      "cut" "/tmp/unpacked-addon1" false true refl refl
