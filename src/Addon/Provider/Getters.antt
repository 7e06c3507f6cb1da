-- ===== src/Addon/Provider/Getters.antt =====
-- internal/addon/provider: the repositories that an HTTP server holds (https.go) and those that are fetched as
-- a directory (generic_dir_getter.go, with git.go, hg.go and s3.go as its callers).
use Prim.Native.String.{◌++◌}
use helm_broker.Common.{
  String, ◌≡◌, refl, false, Option, none, some, List, [], ◌∷◌, Error, plain, wrap, Result, ok, err,
  wrap_result, is_empty, if◌then◌else◌,
}
use helm_broker.Addon.Loader.{Read, content, not_exist, unreadable}
use helm_broker.Addon.Provider.{LoadType, directory_load_type, archive_load_type, RepositoryGetter}
use helm_broker.Addon.Provider.Urls.{
  base, base_of_url, base_of_url-file, has_char, slash, trim_right,
}

-- `url.Parse` with the text of what it gives, downloads to a new file, with its path, and `os.Open`.
pub record Web : Type 0 where
  pub parse_url : String → Result String
  pub get_file : String → Result String
  pub open_file : String → Result (Result String)

-- `HTTPGetter`
pub record HttpGetter : Type 0 where
  pub idx_url : String
  pub repo_url : String

-- `HTTPGetter.AddonDocURL`
unfoldable pub http_addon_doc_url : HttpGetter → String → String → Result String
http_addon_doc_url h name ver = ok (h.repo_url ++ (name ++ ("-" ++ (ver ++ ".tgz"))))

module _ (web : Web) where
  -- `NewHTTP`
  unfoldable pub new_http : String → Result HttpGetter
  unfolding base_of_url
  new_http idx_addr = elim (web.parse_url (base_of_url idx_addr)) [
    | err e ↦ err e
    | ok repo_url ↦ elim (web.parse_url idx_addr) [
      | err e ↦ err e
      | ok idx_url ↦ ok (record { idx_url = idx_url; repo_url = repo_url })
    ]
  ]

  -- `HTTPGetter.IndexReader`
  unfoldable pub http_index_reader : HttpGetter → Result (Result String)
  http_index_reader h = elim (web.get_file h.idx_url) [
    | err e ↦ err e
    | ok path ↦ web.open_file path
  ]

  abbrev download : Result String → Result (LoadType × String)
  download (err e) = err e
  download (ok u) = elim (web.get_file u) [ err e ↦ err e | ok path ↦ ok (archive_load_type, path) ]

  abbrev parsed_download : Result String → Result (LoadType × String)
  parsed_download (err e) = err e
  parsed_download (ok raw) = download (web.parse_url raw)

  -- `HTTPGetter.AddonLoadInfo`
  unfoldable pub http_addon_load_info : HttpGetter → String → String → Result (LoadType × String)
  unfolding http_addon_doc_url
  http_addon_load_info h name ver = parsed_download (http_addon_doc_url h name ver)

  -- The methods of `HTTPGetter` as an implementation of the interface.
  unfoldable pub http_getter : HttpGetter → RepositoryGetter
  unfolding http_index_reader http_addon_load_info http_addon_doc_url
  http_getter h = record {
    index_reader = http_index_reader h;
    addon_load_info = http_addon_load_info h;
    addon_doc_url = http_addon_doc_url h;
  }

-- The library of getters, `path.Join`, the file system with archives, and the upload of documentation.
pub record DirectoryTools : Type 0 where
  pub source_dir_subdir : String → String × String
  pub parse_url : String → Result String
  -- `Underlying.Get`
  pub get : String → String → Option Error
  pub join_path : List String → String
  pub open_file : String → Result (Result String)
  pub stat : String → Read (Unit {0})
  pub archive : String → String → Option Error
  -- the remote path of what is uploaded
  pub upload : String → String → Result String

-- `ClientModeDirGetter`
pub record ClientModeDirGetter : Type 0 where
  pub dst : String
  pub idx_path : String
  pub addon_dir_path : String
  pub tmp_dir : String

module _ (t : DirectoryTools) where
  -- `NewClientModeDirGetter`, with the new path that it downloads to
  unfoldable pub new_client_mode_dir_getter :
      String → String → String → String → Result ClientModeDirGetter
  unfolding base trim_right
  new_client_mode_dir_getter protocol tmp_dir final_dst addr =
      let (upstream, index_path) = t.source_dir_subdir addr in
      if is_empty index_path
      then err (
          plain (
            "index path needs to be provided. Check documentation about using "
            ++ (protocol ++ " protocol")))
      else elim (t.parse_url upstream) [
        | err e ↦ err e
        | ok url ↦ elim (t.get final_dst url) [
          | some e ↦ err e
          | none ↦ ok (record {
            dst = final_dst;
            idx_path = index_path;
            addon_dir_path = trim_right (base index_path) index_path;
            tmp_dir = tmp_dir;
          })
        ]
      ]

  -- `IndexReader`
  unfoldable pub directory_index_reader : ClientModeDirGetter → Result (Result String)
  directory_index_reader g = t.open_file (t.join_path (g.dst ∷ g.idx_path ∷ []))

  abbrev path_to_addon : ClientModeDirGetter → String → String → String
  path_to_addon g name ver = t.join_path (g.dst ∷ g.addon_dir_path ∷ (name ++ ("-" ++ ver)) ∷ [])

  -- `AddonLoadInfo`
  unfoldable pub directory_addon_load_info :
      ClientModeDirGetter → String → String → Result (LoadType × String)
  directory_addon_load_info g name ver = ok (directory_load_type, path_to_addon g name ver)

  abbrev uploaded : String → Result (Result String) → Result String
  uploaded tgz (err e) = err (wrap ("while opening file '" ++ (tgz ++ "'")) e)
  uploaded tgz (ok (err e)) = err (wrap ("while reading file '" ++ (tgz ++ "'")) e)
  uploaded tgz (ok (ok docs)) =
      wrap_result ("while uploading Tgz '" ++ (tgz ++ "' to uploadService")) (t.upload tgz docs)

  abbrev archived : String → Option Error → Result String
  archived tgz (some e) = err (wrap ("while creating archive '" ++ (tgz ++ "'")) e)
  archived tgz none = uploaded tgz (t.open_file tgz)

  abbrev stat_docs : String → String → Read (Unit {0}) → Result String
  stat_docs docs tgz (content u) = archived tgz (t.archive docs tgz)
  stat_docs docs tgz (not_exist e) = ok ""
  stat_docs docs tgz (unreadable e) = err (wrap "while checking if doc exists" e)

  -- `AddonDocURL`; the file that is uploaded is the archive of the directory of documents.
  unfoldable pub directory_addon_doc_url : ClientModeDirGetter → String → String → Result String
  directory_addon_doc_url g name ver =
      let docs = t.join_path (path_to_addon g name ver ∷ "/docs" ∷ []) in
      stat_docs docs (g.tmp_dir ++ ("/docs-" ++ (name ++ ("-" ++ (ver ++ ".tgz"))))) (t.stat docs)

  -- The methods of `ClientModeDirGetter` as an implementation of the interface.
  unfoldable pub directory_getter : ClientModeDirGetter → RepositoryGetter
  unfolding directory_index_reader directory_addon_load_info directory_addon_doc_url
  directory_getter g = record {
    index_reader = directory_index_reader g;
    addon_load_info = directory_addon_load_info g;
    addon_doc_url = directory_addon_doc_url g;
  }

-- A getter that is made for the address of a file in a directory says that an addon's archive is in this
-- directory, under the addon's name and version, where the parser of URLs gives back both addresses as they are.
pub addon_doc_url-new_http :
    (web : Web) (dir file name ver : String)
    → is_empty file ≡ false
    → has_char slash file ≡ false
    → web.parse_url (dir ++ "/") ≡ ok (dir ++ "/")
    → web.parse_url (dir ++ ("/" ++ file)) ≡ ok (dir ++ ("/" ++ file))
    → (h : HttpGetter) × (new_http web (dir ++ ("/" ++ file)) ≡ ok h)
      × (h.idx_url ≡ dir ++ ("/" ++ file))
      × (http_addon_doc_url h name ver ≡ ok ((dir ++ "/") ++ (name ++ ("-" ++ (ver ++ ".tgz")))))
unfolding new_http http_addon_doc_url
addon_doc_url-new_http web dir file name ver k n p q = (
  record { idx_url = dir ++ ("/" ++ file); repo_url = dir ++ "/" },
  rw (new_http, base_of_url-file dir file k n, p, q) refl,
  refl,
  refl,
)
