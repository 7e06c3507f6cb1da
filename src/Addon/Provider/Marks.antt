-- ===== src/Addon/Provider/Marks.antt =====
-- How the controller marks an entry (internal/controller/common.go), by what the provider's client makes of it.
use Prim.Native.String.{◌++◌}
use helm_broker.Common.{
  String, ◌≡◌, refl, ◌∙◌, ◌↔◌, ◌⊎◌, inl, inr, true, false, List, Error, ok, err, wrap, arith,
  is_fetching_error, Bool-cases, Result-cases,
}
use helm_broker.Common.Errors.{is_fetching_error-wrap}
use helm_broker.Model.Addons.{Addon, AddonStatusReason, no_reason, loading_error, fetching_error}
use helm_broker.Model.Charts.{Chart}
use helm_broker.Model.Configurations.{AddonWithCharts, IndexEntry}
use helm_broker.Controller.Entry.{Entry, fetching_failed, loading_failed, fail_with}
use helm_broker.Controller.Loading.{complete_entry}
use helm_broker.Addon.Provider.{
  Client, LoadType, load_by_type, load_addon_and_charts, get_complete_addon, fetch_failure,
  load_failure,
}

module _ {R : Type 0} (d : Client R) (entry : IndexEntry) where
  abbrev Fetched : LoadType → String → Type 0
  Fetched t path = d.concrete_getter.addon_load_info entry.name entry.version ≡ ok (t, path)

  -- The addon cannot be fetched.
  abbrev pub FetchFails : Type 0
  FetchFails = (x : Error) × (d.concrete_getter.addon_load_info entry.name entry.version ≡ err x)

  -- It is fetched, and cannot be loaded.
  abbrev pub LoadFails : Type 0
  LoadFails =
      (t : LoadType) × (path : String) × (x : Error) × Fetched t path
      × (load_by_type d.addon_loader t path ≡ err x)

  -- It is loaded, and the URL of its documentation is wanted and not found.
  abbrev pub DocsFail : Type 0
  DocsFail =
      (t : LoadType) × (path : String) × (r : Addon × List Chart) × (x : Error) × Fetched t path
      × (load_by_type d.addon_loader t path ≡ ok r)
      × (d.documentation_enabled ≡ true)
      × (d.concrete_getter.addon_doc_url entry.name entry.version ≡ err x)

  -- What `GetCompleteAddon` gives, with whether an error of it is of the kind of a failed fetch.
  FetchFails-error :
      FetchFails → (x : Error) × (get_complete_addon d entry ≡ err x) × (is_fetching_error x ≡ true)
  unfolding get_complete_addon load_addon_and_charts is_fetching_error
  FetchFails-error (x, h) = (
    wrap ("while loading addon " ++ entry.name) (fetch_failure d entry.name entry.version x),
    rw (get_complete_addon, load_addon_and_charts, h) refl,
    is_fetching_error-wrap ("while loading addon " ++ entry.name)
        (fetch_failure d entry.name entry.version x),
  )

  LoadFails-error :
      LoadFails → (x : Error) × (get_complete_addon d entry ≡ err x) × (is_fetching_error x ≡ false)
  unfolding get_complete_addon load_addon_and_charts is_fetching_error
  LoadFails-error (t, path, x, f, h) = (
    wrap ("while loading addon " ++ entry.name) (load_failure d entry.name entry.version x),
    rw (get_complete_addon, load_addon_and_charts, f, h) refl,
    is_fetching_error-wrap ("while loading addon " ++ entry.name)
        (load_failure d entry.name entry.version x),
  )

  DocsFail-error :
      ((x : Error)
        → d.concrete_getter.addon_doc_url entry.name entry.version ≡ err x
        → is_fetching_error x ≡ false)
      → DocsFail
      → (x : Error) × (get_complete_addon d entry ≡ err x) × (is_fetching_error x ≡ false)
  unfolding get_complete_addon load_addon_and_charts
  DocsFail-error plain_docs (t, path, r, x, f, h, on, q) = (
    wrap ("while getting Docs URL for addon " ++ entry.name) x,
    rw (get_complete_addon, load_addon_and_charts, f, h, on, q) refl,
    is_fetching_error-wrap _ x ∙ plain_docs x q,
  )

  -- One of the three fails, or the addon is complete, with the reason that its loader gave it.
  get_complete_addon-cases :
      FetchFails
      ⊎ (LoadFails
          ⊎ (DocsFail
              ⊎ ((r : AddonWithCharts) × (t : LoadType) × (path : String) × (a : Addon × List Chart)
                  × Fetched t path
                  × (load_by_type d.addon_loader t path ≡ ok a)
                  × (get_complete_addon d entry ≡ ok r)
                  × (r.addon.reason ≡ a.0.reason))))
  unfolding get_complete_addon load_addon_and_charts
  get_complete_addon-cases =
      elim (Result-cases (d.concrete_getter.addon_load_info entry.name entry.version)) [
        | inl h ↦ inl h
        | inr ((t, path), f) ↦ elim (Result-cases (load_by_type d.addon_loader t path)) [
          | inl (x, h) ↦ inr (inl (t, path, x, f, h))
          | inr ((a, charts), h) ↦ elim (Bool-cases d.documentation_enabled) [
            | inr off ↦ inr (
                inr (
                  inr (
                    record { addon = a; charts = charts },
                    t,
                    path,
                    (a, charts),
                    f,
                    h,
                    rw (get_complete_addon, load_addon_and_charts, f, h, off) refl,
                    refl,
                  )))
            | inl on ↦
                elim (Result-cases (d.concrete_getter.addon_doc_url entry.name entry.version)) [
                  | inl (x, q) ↦ inr (inr (inl (t, path, (a, charts), x, f, h, on, q)))
                  | inr (url, q) ↦ inr (
                      inr (
                        inr (
                          record { addon = record a { repository_url = url }; charts = charts },
                          t,
                          path,
                          (a, charts),
                          f,
                          h,
                          rw (get_complete_addon, load_addon_and_charts, f, h, on, q) refl,
                          refl,
                        )))
                ]
          ]
        ]
      ]

  -- The reason that the controller gives an entry.
  reason : Entry → AddonStatusReason
  unfolding complete_entry
  reason e = (complete_entry (get_complete_addon d entry) e).addon.reason

  reason-fetching :
      (e : Entry)
      → ((x : Error) × (get_complete_addon d entry ≡ err x) × (is_fetching_error x ≡ true))
      → reason e ≡ fetching_error
  unfolding reason complete_entry fetching_failed fail_with
  reason-fetching e (x, h, k) = rw (reason, h, complete_entry, k) refl

  reason-loading :
      (e : Entry)
      → ((x : Error) × (get_complete_addon d entry ≡ err x) × (is_fetching_error x ≡ false))
      → reason e ≡ loading_error
  unfolding reason complete_entry loading_failed fail_with
  reason-loading e (x, h, k) = rw (reason, h, complete_entry, k) refl

  reason-cases :
      (e : Entry)
      → ((t : LoadType) (path : String) (a : Addon × List Chart)
          → load_by_type d.addon_loader t path ≡ ok a
          → a.0.reason ≡ no_reason)
      → ((x : Error)
          → d.concrete_getter.addon_doc_url entry.name entry.version ≡ err x
          → is_fetching_error x ≡ false)
      → (FetchFails × (reason e ≡ fetching_error))
        ⊎ (((LoadFails ⊎ DocsFail) × (reason e ≡ loading_error)) ⊎ (reason e ≡ no_reason))
  unfolding reason complete_entry
  reason-cases e fresh plain_docs = elim get_complete_addon-cases [
    | inl h ↦ inl (h, reason-fetching e (FetchFails-error h))
    | inr (inl h) ↦ inr (inl (inl h, reason-loading e (LoadFails-error h)))
    | inr (inr (inl h)) ↦ inr (inl (inr h, reason-loading e (DocsFail-error plain_docs h)))
    | inr (inr (inr (r, t, path, a, f, l, h, same))) ↦
        inr (inr (rw (reason, h, complete_entry) (same ∙ fresh t path a l)))
  ]

  -- The controller marks the entry of an addon as a failed fetch exactly if the provider cannot fetch the addon,
  -- and as a failed load exactly if it fetches the addon and either cannot load it or, with documentation
  -- enabled, does not get its URL; for loaders that give addons no reason, and getters whose errors about
  -- documentation are not of the kind of a failed fetch.
  pub complete_entry-get_complete_addon :
      (e : Entry)
      → ((t : LoadType) (path : String) (a : Addon × List Chart)
          → load_by_type d.addon_loader t path ≡ ok a
          → a.0.reason ≡ no_reason)
      → ((x : Error)
          → d.concrete_getter.addon_doc_url entry.name entry.version ≡ err x
          → is_fetching_error x ≡ false)
      → (((complete_entry (get_complete_addon d entry) e).addon.reason ≡ fetching_error)
          ↔ FetchFails)
        × (((complete_entry (get_complete_addon d entry) e).addon.reason ≡ loading_error)
            ↔ (LoadFails ⊎ DocsFail))
  unfolding reason
  complete_entry-get_complete_addon e fresh plain_docs =
      let cases = reason-cases e fresh plain_docs in
      (
        (
          λ q. elim cases [
            | inl (h, r) ↦ h
            | inr (inl (h, r)) ↦ absurd (ground (arith, q, r))
            | inr (inr r) ↦ absurd (ground (arith, q, r))
          ],
          λ h. reason-fetching e (FetchFails-error h),
        ),
        (
          λ q. elim cases [
            | inl (h, r) ↦ absurd (ground (arith, q, r))
            | inr (inl (h, r)) ↦ h
            | inr (inr r) ↦ absurd (ground (arith, q, r))
          ],
          λ h. elim h [
            | inl l ↦ reason-loading e (LoadFails-error l)
            | inr l ↦ reason-loading e (DocsFail-error plain_docs l)
          ],
        ),
      )
