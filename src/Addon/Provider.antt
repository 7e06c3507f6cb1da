-- ===== src/Addon/Provider.antt =====
-- internal/addon/provider: client.go and factory.go, from a repository's address to its addons. The access to a
-- repository, the loader of addons, and the parsing of URLs and of YAML are parameters.
pub mod Urls
pub mod Getters
pub mod Scheme
pub mod Marks
mod Tests
use Prim.Native.String.{◌++◌}
use helm_broker.Common.{
  String, Bool, true, false, Option, none, some, List, [], ◌∷◌, Error, plain, wrap, of_kind,
  fetching_error_kind, loading_error_kind, Result, ok, err, wrap_result,
}
use helm_broker.Dict.{Dict, lookup}
use helm_broker.Model.Addons.{Addon}
use helm_broker.Model.Charts.{Chart}
use helm_broker.Model.Configurations.{AddonWithCharts, IndexEntry}
use helm_broker.Addon.Provider.Scheme.{Url, get_schema_and_src}

-- `LoadType`
pub data LoadType : Type 0 where
  directory_load_type archive_load_type unknown_load_type : LoadType

-- `RepositoryGetter`; a reader of the index is what `ioutil.ReadAll` gives of it.
pub record RepositoryGetter : Type 0 where
  pub index_reader : Result (Result String)
  pub addon_load_info : String → String → Result (LoadType × String)
  pub addon_doc_url : String → String → Result String

-- `addonLoader`, and `os.Open`, which gives a reader for `Load`
pub record AddonLoader (R : Type 0) : Type 0 where
  pub load_dir : String → Result (Addon × List Chart)
  pub load : R → Result (Addon × List Chart)
  pub open_file : String → Result R

-- `Client`
pub record Client (R : Type 0) : Type 0 where
  pub addon_loader : AddonLoader R
  pub concrete_getter : RepositoryGetter
  pub documentation_enabled : Bool

-- The texts of the load types, as %q prints their numbers.
abbrev load_type_text : LoadType → String
load_type_text directory_load_type = "'\\x00'"
load_type_text archive_load_type = "'\\x01'"
load_type_text unknown_load_type = "'\\x02'"

abbrev unsupported : LoadType → Error
unsupported t =
    plain
      ("unsupported load type " ++ (load_type_text t ++ ". Allowed load types: Directory, Archive"))

module _ {R : Type 0} where
  abbrev loaded_archive : AddonLoader R → String → Result R → Result (Addon × List Chart)
  loaded_archive l path (err e) = err (wrap ("while opening archive from path: " ++ path) e)
  loaded_archive l path (ok reader) = l.load reader

  -- `loadByType`
  unfoldable pub load_by_type : AddonLoader R → LoadType → String → Result (Addon × List Chart)
  load_by_type l directory_load_type path = l.load_dir path
  load_by_type l archive_load_type path = loaded_archive l path (l.open_file path)
  load_by_type l unknown_load_type path = err (unsupported unknown_load_type)

module _ {R : Type 0} (d : Client R) where
  abbrev pub fetch_failure : String → String → Error → Error
  fetch_failure name ver e = of_kind fetching_error_kind (
      wrap
        ("while reading addon archive for name [" ++ (name ++ ("] and version [" ++ (ver ++ "]"))))
        e)

  abbrev pub load_failure : String → String → Error → Error
  load_failure name ver e = of_kind loading_error_kind (
      wrap
        ("while loading addon and charts for addon ["
          ++ (name ++ ("] and version [" ++ (ver ++ "]"))))
        e)

  -- `loadAddonAndCharts`
  unfoldable pub load_addon_and_charts : String → String → Result (Addon × List Chart)
  unfolding load_by_type
  load_addon_and_charts name ver = elim (d.concrete_getter.addon_load_info name ver) [
    | err e ↦ err (fetch_failure name ver e)
    | ok (t, path) ↦ elim (load_by_type d.addon_loader t path) [
      | err e ↦ err (load_failure name ver e)
      | ok r ↦ ok r
    ]
  ]

  -- The rest of `GetCompleteAddon`, once the addon is loaded.
  abbrev with_documentation : IndexEntry → Addon → List Chart → Bool → Result AddonWithCharts
  with_documentation entry a charts false = ok (record { addon = a; charts = charts })
  with_documentation entry a charts true =
      elim (d.concrete_getter.addon_doc_url entry.name entry.version) [
        | err e ↦ err (wrap ("while getting Docs URL for addon " ++ entry.name) e)
        | ok url ↦ ok (record { addon = record a { repository_url = url }; charts = charts })
      ]

  -- `GetCompleteAddon`
  unfoldable pub get_complete_addon : IndexEntry → Result AddonWithCharts
  unfolding load_addon_and_charts
  get_complete_addon entry = elim (load_addon_and_charts entry.name entry.version) [
    | err e ↦ err (wrap ("while loading addon " ++ entry.name) e)
    | ok (a, charts) ↦ with_documentation entry a charts d.documentation_enabled
  ]

  -- The loops of `GetIndex` that name the entries by their keys.
  unfoldable pub name_entries : String → List IndexEntry → List IndexEntry
  name_entries name [] = []
  name_entries name (e ∷ es) = record e { name = name } ∷ name_entries name es

  unfoldable pub name_index : Dict (List IndexEntry) → Dict (List IndexEntry)
  unfolding name_entries
  name_index [] = []
  name_index ((name, es) ∷ index) = (name, name_entries name es) ∷ name_index index

  -- `GetIndex`, with the parser of the index's YAML
  unfoldable pub get_index :
      (String → Result (Dict (List IndexEntry))) → Result (Dict (List IndexEntry))
  unfolding name_index
  get_index unmarshal = elim d.concrete_getter.index_reader [
    | err e ↦ err (wrap "while getting index file" e)
    | ok (err e) ↦ err (wrap "while reading index file" e)
    | ok (ok bytes) ↦ elim (unmarshal bytes) [
      | err e ↦ err (wrap "while unmarshaling index file" e)
      | ok index ↦ ok (name_index index)
    ]
  ]

-- `ClientFactory`, with the detection of a source's kind and `url.Parse`
pub record ClientFactory (R : Type 0) : Type 0 where
  pub getters_providers : Dict (String → Result RepositoryGetter)
  pub addon_loader : AddonLoader R
  pub documentation_enabled : Bool
  pub detect : String → Result String
  pub parse_url : String → Result Url

module _ {R : Type 0} (f : ClientFactory R) where
  abbrev client_of : Result RepositoryGetter → Result (Client R)
  client_of (err e) = err e
  client_of (ok g) = ok (record {
    addon_loader = f.addon_loader;
    concrete_getter = g;
    documentation_enabled = f.documentation_enabled;
  })

  abbrev provided : String → Option (String → Result RepositoryGetter) → String → Result (Client R)
  provided scheme none addr =
      err (plain ("not supported scheme '" ++ (scheme ++ "' for addons repository")))
  provided scheme (some provider) addr = client_of (provider addr)

  -- `NewGetter`
  unfoldable pub new_getter : String → Result (Client R)
  unfolding get_schema_and_src lookup
  new_getter raw_url = elim (f.detect raw_url) [
    | err e ↦ err e
    | ok addr ↦ elim (f.parse_url addr) [
      | err e ↦ err e
      | ok url ↦
          let (scheme, src) = get_schema_and_src url in
          provided scheme (lookup scheme f.getters_providers) src
    ]
  ]
