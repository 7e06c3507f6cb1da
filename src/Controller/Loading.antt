-- ===== src/Controller/Loading.antt =====
-- internal/controller/common.go: `loadRepositories` and `createAddons`.
use helm_broker.Common.{
  String, none, some, List, [], ◌∷◌, Result, ok, err, wrap, is_empty, is_fetching_error,
  if◌then◌else◌,
}
use helm_broker.Model.Addons.{ready}
use helm_broker.Model.Configurations.{SpecRepository, AddonWithCharts, IndexEntry}
use helm_broker.Controller.Entry.{Entry, new_repository_entry, fetching_failed, loading_failed}
use helm_broker.Controller.Collection as Repositories
use helm_broker.Controller.Collection.{Repository, Collection, new_addons_repository}
use helm_broker.Controller.Services.{Services, Getter, Outcome, done, failed_with, panicked}

-- The fields that a loaded addon sets in its entry.
abbrev loaded_entry : AddonWithCharts → Entry → Entry
loaded_entry a e = record e {
  id = a.addon.id;
  addon = record (a.addon) { status = ready };
  charts = a.charts;
}

-- The switch over the result of `GetCompleteAddon`.
unfoldable pub complete_entry : Result AddonWithCharts → Entry → Entry
complete_entry (ok a) e = loaded_entry a e
complete_entry (err error) e =
    if is_fetching_error error then fetching_failed error e else loading_failed error e

abbrev pub before : {A : Type 0} → A → Outcome (List A) → Outcome (List A)
before a (done as') = done (a ∷ as')
before a (failed_with e) = failed_with e
before a panicked = panicked

-- The repository of a URL, by the outcome of `createAddons`.
abbrev pub with_addons : Outcome (List Entry) → Repository → Outcome Repository
with_addons (done es) r = done (record r { entries = es })
with_addons (failed_with e) r = done (Repositories.fetching_failed e r)
with_addons panicked r = panicked

abbrev pub before_repositories : Outcome Repository → Outcome Collection → Outcome Collection
before_repositories (done r) rs = before r rs
before_repositories (failed_with e) rs = failed_with e
before_repositories panicked rs = panicked

module _ {S : Type 0} (c : Services S) where
  -- The loop over the entries of an index.
  create_entries : Getter → String → List IndexEntry → Outcome (List Entry)
  unfolding complete_entry
  create_entries g url [] = done []
  create_entries g url (entry ∷ entries) = elim (c.parse_version entry.version) [
    | none ↦ panicked
    | some version ↦
        before
          (complete_entry (g.get_complete_addon entry)
            (new_repository_entry entry.name version url))
          (create_entries g url entries)
  ]

  -- `createAddons`
  unfoldable pub create_addons : String → S → Outcome (List Entry)
  unfolding create_entries
  create_addons url s = elim (c.new_getter url s) [
    | err e ↦ failed_with (wrap "while getting getter from factory" e)
    | ok g ↦ elim g.get_index [
      | err e ↦ failed_with (wrap "while reading repository index" e)
      | ok index ↦ create_entries g url index
    ]
  ]

  -- The body of the loop of `loadRepositories`.
  unfoldable pub load_repository : SpecRepository → S → Outcome Repository
  unfolding create_addons
  load_repository spec s =
      let repo = new_addons_repository spec.url in
      if is_empty spec.url
      then done (Repositories.empty_url_failed repo)
      else elim (c.template_url spec s) [
        | err e ↦ done (Repositories.templating_failed e repo)
        | ok url ↦ with_addons (create_addons url s) repo
      ]

  -- `loadRepositories`
  unfoldable pub load_repositories : List SpecRepository → S → Outcome Collection
  unfolding load_repository
  load_repositories [] s = done []
  load_repositories (spec ∷ specs) s =
      before_repositories (load_repository spec s) (load_repositories specs s)
