-- ===== src/Controller/Saving.antt =====
-- internal/controller/common.go: `saveAddons` and `saveCharts`.
use helm_broker.Common.{
  Bool, true, false, ◌||◌, Option, none, some, List, [], ◌∷◌, length, nat_eq, Error, error_text, ok,
  err, if◌then◌else◌,
}
use helm_broker.Model.Addons.{Addon, registering_error}
use helm_broker.Model.Charts.{Chart}
use helm_broker.Controller.Entry.{Entry, is_ready, fail_with}
use helm_broker.Controller.Collection.{Collection}
use helm_broker.Controller.Services.{Services}

-- `RegisteringError`
abbrev pub registering_failed : Error → Entry → Entry
registering_failed error = fail_with registering_error (error_text error)

module _ {S : Type 0} (c : Services S) where
  -- `saveCharts`, which stops at the first error.
  save_charts : List Chart → S → Option Error × S
  save_charts [] s = (none, s)
  save_charts (ch ∷ chs) s =
      let (r, s') = c.upsert_chart ch s in
      let rest = save_charts chs s' in elim r [ err e ↦ (some e, s') | ok exist ↦ rest ]

  -- The documentation of an addon that has one; an error is only logged.
  ensure_documentation : Addon → S → S
  ensure_documentation addon s =
      if nat_eq (length addon.docs) 1 then (c.ensure_asset_group addon s).1 else s

  -- The charts of an addon that is stored.
  finish_saving : Entry → S → (Bool × Entry) × S
  unfolding save_charts
  finish_saving e s =
      let (r, s') = save_charts e.charts s in
      elim r [ some error ↦ ((true, registering_failed error e), s') | none ↦ ((true, e), s') ]

  -- The body of the loop of `saveAddons`: whether the addon was stored, and its entry.
  unfoldable pub save_addon : Entry → S → (Bool × Entry) × S
  unfolding ensure_documentation finish_saving
  save_addon e s =
      let (r, s') = c.upsert_addon e.addon (ensure_documentation e.addon s) in
      elim r [
        | err error ↦ ((false, registering_failed error e), s')
        | ok exist ↦ finish_saving e s'
      ]

  abbrev save_if_ready : Entry → S → (Bool × Entry) × S
  save_if_ready e s = if is_ready e then save_addon e s else ((false, e), s)

  unfoldable pub save_entries : List Entry → S → (Bool × List Entry) × S
  unfolding save_addon
  save_entries [] s = ((false, []), s)
  save_entries (e ∷ es) s =
      let ((saved, e'), s') = save_if_ready e s in
      let ((saved', es'), last) = save_entries es s' in ((saved || saved', e' ∷ es'), last)

  -- `saveAddons`: whether any addon was stored, and the entries with their errors.
  unfoldable pub save_addons : Collection → S → (Bool × Collection) × S
  unfolding save_entries
  save_addons [] s = ((false, []), s)
  save_addons (r ∷ rs) s =
      let ((saved, es), s') = save_entries r.entries s in
      let ((saved', rs'), last) = save_addons rs s' in
      ((saved || saved', record r { entries = es } ∷ rs'), last)
