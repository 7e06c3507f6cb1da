-- ===== src/Addon/Provider/Tests.antt =====
-- A repository on an HTTP server, with one addon.
use Prim.Native.String.{◌++◌}
use helm_broker.Common.{
  String, ◌≡◌, refl, sym, ap, ◌↔◌, ◌⊎◌, true, false, Error, Result, List, [], plain, ok, err,
  is_fetching_error, arith,
}
use helm_broker.Model.Addons.{
  Addon, AddonStatusReason, Version, no_reason, loading_error, fetching_error,
}
use helm_broker.Model.Charts.{Chart}
use helm_broker.Model.Configurations.{IndexEntry}
use helm_broker.Controller.Entry.{Entry, new_repository_entry}
use helm_broker.Controller.Loading.{complete_entry}
use helm_broker.Addon.Provider.{
  Client, LoadType, directory_load_type, archive_load_type, unknown_load_type, AddonLoader,
  load_by_type, get_complete_addon,
}
use helm_broker.Addon.Provider.Urls.{base, base_of_url, has_char}
use helm_broker.Addon.Provider.Scheme.{
  all_alphanumeric, has_newline, get_schema_and_src, get_schema_and_src-forced,
}
use helm_broker.Addon.Provider.Getters.{
  Web, HttpGetter, new_http, http_getter, http_addon_doc_url, addon_doc_url-new_http,
}
use helm_broker.Addon.Provider.Marks.{
  FetchFails, LoadFails, DocsFail, complete_entry-get_complete_addon,
}

get_schema_and_src-forced_example :
    get_schema_and_src (record {
      scheme = "git";
      text = "git" ++ ("::" ++ "https://github.com/kyma-project/addons");
    })
    ≡ ("git", "https://github.com/kyma-project/addons")
unfolding all_alphanumeric has_newline
get_schema_and_src-forced_example =
    get_schema_and_src-forced "git" "https://github.com/kyma-project/addons" "git" refl refl refl
      refl

abbrev web : Web
web = record {
  parse_url = λ s. ok s;
  get_file = λ url. ok "/tmp/download";
  open_file = λ path. ok (ok "entries");
}

addon_doc_url-new_http_example :
    (h : HttpGetter) × (new_http web ("https://host/addons" ++ ("/" ++ "index.yaml")) ≡ ok h)
    × (h.idx_url ≡ "https://host/addons" ++ ("/" ++ "index.yaml"))
    × (http_addon_doc_url h "redis" "0.0.1"
        ≡ ok (("https://host/addons" ++ "/") ++ ("redis" ++ ("-" ++ ("0.0.1" ++ ".tgz")))))
unfolding has_char
addon_doc_url-new_http_example =
    addon_doc_url-new_http web "https://host/addons" "index.yaml" "redis" "0.0.1" refl refl refl
      refl

base_of_file : base "https://host/addons/index.yaml" ≡ "index.yaml"
unfolding base
base_of_file = refl

base_of_directory : base_of_url "https://host/addons/index/" ≡ "https://host/addons/index/"
unfolding base_of_url
base_of_directory = refl

abbrev redis_version : Version
redis_version = record { original = "0.0.1"; canonical = "0.0.1" }

abbrev redis : Addon
unfolding new_repository_entry
redis = record ((new_repository_entry "redis" redis_version "").addon) { id = "id-redis" }

abbrev loader : AddonLoader String
unfolding new_repository_entry
loader = record {
  load_dir = λ path. err (plain "no directories");
  load = λ bytes. ok (redis, []);
  open_file = λ path. ok path;
}

abbrev client : Client String
unfolding http_getter
client = record {
  addon_loader = loader;
  concrete_getter =
      http_getter web (record { idx_url = "https://host/index.yaml"; repo_url = "https://host/" });
  documentation_enabled = true;
}

abbrev redis_entry : IndexEntry
redis_entry = record { name = "redis"; display_name = "Redis"; description = ""; version = "0.0.1" }

abbrev entry : Entry
unfolding new_repository_entry
entry = new_repository_entry "redis" redis_version "https://host/index.yaml"

loaded_redis :
    (complete_entry (get_complete_addon client redis_entry) entry).addon.repository_url
    ≡ "https://host/redis-0.0.1.tgz"
unfolding complete_entry get_complete_addon client loader
loaded_redis = refl

-- No reason, where nothing is loaded.
abbrev loaded_reason : Result (Addon × List Chart) → AddonStatusReason
loaded_reason (ok a) = a.0.reason
loaded_reason (err e) = no_reason

loader-fresh :
    (t : LoadType) (path : String) (a : Addon × List Chart)
    → load_by_type loader t path ≡ ok a
    → a.0.reason ≡ no_reason
unfolding load_by_type loader redis new_repository_entry
loader-fresh directory_load_type path a h = sym (ap loaded_reason h)
loader-fresh archive_load_type path a h = sym (ap loaded_reason h)
loader-fresh unknown_load_type path a h = sym (ap loaded_reason h)

documented :
    (x : Error)
    → client.concrete_getter.addon_doc_url redis_entry.name redis_entry.version ≡ err x
    → is_fetching_error x ≡ false
unfolding client http_getter http_addon_doc_url
documented x h = absurd (ground (arith, h))

complete_entry-get_complete_addon_example :
    (((complete_entry (get_complete_addon client redis_entry) entry).addon.reason ≡ fetching_error)
      ↔ FetchFails client redis_entry)
    × (((complete_entry (get_complete_addon client redis_entry) entry).addon.reason ≡ loading_error)
        ↔ (LoadFails client redis_entry ⊎ DocsFail client redis_entry))
unfolding client loader
complete_entry-get_complete_addon_example =
    complete_entry-get_complete_addon client redis_entry entry loader-fresh documented
