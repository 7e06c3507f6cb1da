-- ===== src/Controller/Removal.antt =====
-- internal/controller/common.go: `removeAddon`, `deletePreviousAddons` and `deleteOrphanAddons`.
pub mod Laws
pub mod Gone
pub mod Loops
use Prim.Native.String.{◌++◌}
use helm_broker.Common.{
  String, Bool, true, false, not, ◌||◌, ◌==◌, Option, none, some, List, [], ◌∷◌, ◌++◌ as ◌+++◌,
  Error, wrap, is_not_found, Result, ok, err, if◌then◌else◌, exists_in,
}
use helm_broker.Dict.{values}
use helm_broker.Model.Addons.{Addon, AddonPlan, Version}
use helm_broker.Model.Configurations.{StatusAddon, StatusRepository, addon_key}
use helm_broker.Controller.Services.{
  Services, Outcome, done, failed_with, panicked, Task, return, wrap_outcome, ◌>>=◌,
}

-- The addons of a status, repository by repository.
unfoldable pub status_addons : List StatusRepository → List StatusAddon
status_addons [] = []
status_addons (r ∷ rs) = r.addons +++ status_addons rs

-- What `removeAddon` returns: whether the addon was removed, and an error.
abbrev pub Removed : Type 0
Removed = Bool × Option Error

-- The callers' test: an error that the addon is not found is passed over.
abbrev pass_missing : String → Outcome Removed → Outcome Bool
pass_missing message (failed_with e) = failed_with e
pass_missing message panicked = panicked
pass_missing message (done (removed, none)) = done removed
pass_missing message (done (removed, some e)) =
    if is_not_found e then done removed else failed_with (wrap message e)

-- `addonsToStay[ad.Key()]`
abbrev pub stays : List StatusAddon → StatusAddon → Bool
stays present ad = exists_in (λ a. addon_key a == addon_key ad) present

abbrev pub previous_message : StatusAddon → String
previous_message ad = "while deleting previous addons and charts for addon `" ++ (ad.name ++ "`")

abbrev pub orphan_message : StatusAddon → String
orphan_message ad = "while deleting orphan addons and charts for addon `" ++ (ad.name ++ "`")

module _ {S : Type 0} (c : Services S) where
  -- The loop over the charts of an addon's plans, which stops at the first error.
  remove_charts : List AddonPlan → S → Option Error × S
  remove_charts [] s = (none, s)
  remove_charts (plan ∷ plans) s =
      let (e, s') = c.remove_chart plan.chart_ref.name plan.chart_ref.version s in
      let rest = remove_charts plans s' in elim e [ some e' ↦ (some e', s') | none ↦ rest ]

  -- From the removal of the documentation on.
  finish_removal : Addon → S → Removed × S
  unfolding remove_charts
  finish_removal add s =
      let (e, s') = c.ensure_asset_group_removed add.id s in
      elim e [
        | some e' ↦
            ((true, some (wrap ("while deleting documentation for addon " ++ add.id) e')), s')
        | none ↦
            let (r, last) = remove_charts (c.plan_order (values add.plans)) s' in ((true, r), last)
      ]

  -- From the removal of the addon on.
  remove_found : StatusAddon → Addon → S → Removed × S
  unfolding finish_removal
  remove_found ad add s =
      let (e, s') = c.remove_addon ad.name add.version s in
      elim e [ some e' ↦ ((false, some e'), s') | none ↦ finish_removal add s' ]

  -- From the look at the storage on.
  remove_version : StatusAddon → Version → S → Removed × S
  unfolding remove_found
  remove_version ad version s =
      let (r, s') = c.get_addon ad.name version s in
      elim r [ err e ↦ ((false, some e), s') | ok add ↦ remove_found ad add s' ]

  -- `removeAddon`
  unfoldable pub remove_addon : StatusAddon → Task S Removed
  unfolding remove_version
  remove_addon ad s = elim (c.parse_version ad.version) [
    | none ↦ (panicked, s)
    | some version ↦ let (r, s') = remove_version ad version s in (done r, s')
  ]

  unfoldable pub remove_if_present : String → StatusAddon → Task S Bool
  unfolding remove_addon
  remove_if_present message ad s = let (r, s') = remove_addon ad s in (pass_missing message r, s')

  -- The loop of `deletePreviousAddons`.
  delete_addons : List StatusAddon → Task S (List String)
  unfolding remove_if_present
  delete_addons [] = return []
  delete_addons (ad ∷ ads) = do
    removed ← remove_if_present (previous_message ad) ad
    keys ← delete_addons ads
    return (addon_key ad ∷ keys)

  -- `deletePreviousAddons`
  unfoldable pub delete_previous_addons : List StatusRepository → Task S (List String)
  unfolding delete_addons status_addons
  delete_previous_addons repos = delete_addons (status_addons repos)

  -- The loop of `deleteOrphanAddons`.
  delete_orphans : List StatusAddon → List StatusAddon → Task S (List String)
  unfolding remove_if_present addon_key exists_in
  delete_orphans present [] = return []
  delete_orphans present (ad ∷ ads) =
      let rest = delete_orphans present ads in
      if stays present ad then rest else (do
        removed ← remove_if_present (orphan_message ad) ad
        keys ← rest
        return (addon_key ad ∷ keys))

  -- `deleteOrphanAddons`
  unfoldable pub delete_orphan_addons :
      List StatusRepository → List StatusRepository → Task S (List String)
  unfolding delete_orphans status_addons
  delete_orphan_addons repos last_repos =
      delete_orphans (status_addons repos) (status_addons last_repos)
