-- ===== src/Controller/Removal/Laws.antt =====
-- What the removal of addons relies on: which addons the storage returns, and what its calls do to that.
use helm_broker.Common.{
  String, ◌≡◌, Bool, true, false, none, some, Error, is_not_found, is_empty, ok, if◌then◌else◌,
}
use helm_broker.Model.Addons.{Addon, AddonName, Version}
use helm_broker.Model.Configurations.{CommonAddon}
use helm_broker.Controller.Services.{
  Services, Outcome, done, failed_with, panicked, Task, return, wrapping, continue, ◌>>=◌,
}

module _ {S : Type 0} (c : Services S) where
  -- The storage returns the addon for the name and the version.
  abbrev pub Reads : S → AddonName → Version → Addon → Type 0
  Reads s name version b = (c.get_addon name version s).0 ≡ ok b

  -- The storage returns no addon for the name and the version.
  abbrev pub IsGone : AddonName → Version → S → Type 0
  IsGone name version s = (b : Addon) → ¬ (Reads s name version b)

  -- The storage returns nothing new.
  abbrev pub Shrinks : S → S → Type 0
  Shrinks s s' =
      (name : AddonName) (version : Version) (b : Addon)
      → Reads s' name version b
      → Reads s name version b

  abbrev pub IsShrinking : {R : Type 0} → (S → R × S) → Type 0
  IsShrinking f = (s : S) → Shrinks s (f s).1

  -- What the storage returns for a version that parses has that version.
  abbrev pub IsConsistent : S → Type 0
  IsConsistent s =
      (name : AddonName) (text : String) (version : Version) (b : Addon)
      → c.parse_version text ≡ some version
      → Reads s name version b
      → (b.version.canonical ≡ version.canonical) × (is_empty b.version.original ≡ false)

  pub record IsForgetful : Type 0 where
    pub get_shrinks :
        (name : AddonName) (version : Version) → IsShrinking (c.get_addon name version)
    pub remove_shrinks :
        (name : AddonName) (version : Version) → IsShrinking (c.remove_addon name version)
    pub remove_chart_shrinks :
        (name : String) (version : Version) → IsShrinking (c.remove_chart name version)
    pub docs_shrinks : (i : String) → IsShrinking (c.ensure_asset_group_removed i)
    pub sync_shrinks : IsShrinking c.sync_broker
    pub update_shrinks : (a : CommonAddon) → IsShrinking (c.update_configuration a)
    pub request_shrinks : (name : String) → IsShrinking (c.request_reprocess name)
    -- Versions with the same canonical text name the same addon.
    pub same_version :
        (name : AddonName) (v w : Version) (s : S) (b : Addon)
        → v.canonical ≡ w.canonical
        → is_empty w.original ≡ false
        → Reads s name v b
        → Reads s name w b
    pub removed :
        (name : AddonName) (version : Version) (s : S)
        → (c.remove_addon name version s).0 ≡ none
        → IsGone name version (c.remove_addon name version s).1
    pub missing :
        (name : AddonName) (version : Version) (s : S) (e : Error)
        → (c.remove_addon name version s).0 ≡ some e
        → is_not_found e ≡ true
        → IsGone name version s

  pub IsGone-Shrinks :
      {name : AddonName} {version : Version} {s t : S}
      → Shrinks s t
      → IsGone name version s
      → IsGone name version t
  IsGone-Shrinks {name} {version} h g b k = g b (h name version b k)

  pub IsConsistent-Shrinks : {s t : S} → Shrinks s t → IsConsistent s → IsConsistent t
  IsConsistent-Shrinks h g name text version b e k = g name text version b e (h name version b k)

  pub Shrinks-trans : {s t u : S} → Shrinks s t → Shrinks t u → Shrinks s u
  Shrinks-trans h k name version b r = h name version b (k name version b r)

  -- Tasks whose parts shrink.
  continue-IsShrinking :
      {A B : Type 0} (r : Outcome A) (f : A → Task S B)
      → ((a : A) → IsShrinking (f a))
      → IsShrinking (continue r f)
  continue-IsShrinking (done a) f h s name version b k = h a s name version b k
  continue-IsShrinking (failed_with e) f h s name version b k = k
  continue-IsShrinking panicked f h s name version b k = k

  pub then-IsShrinking :
      {A B : Type 0} (m : Task S A) (f : A → Task S B)
      → IsShrinking m
      → ((a : A) → IsShrinking (f a))
      → IsShrinking (m >>= f)
  unfolding ◌>>=◌
  then-IsShrinking m f h k s = Shrinks-trans (h s) (continue-IsShrinking (m s).0 f k (m s).1)

  pub return-IsShrinking : {A : Type 0} (a : A) → IsShrinking (return {S = S} a)
  return-IsShrinking a s name version b k = k

  pub wrapping-IsShrinking :
      {A : Type 0} (message : String) (m : Task S A)
      → IsShrinking m
      → IsShrinking (wrapping message m)
  unfolding wrapping
  wrapping-IsShrinking message m h s = h s

  pub if-IsShrinking :
      {A : Type 0} (b : Bool) (m n : Task S A)
      → IsShrinking m
      → IsShrinking n
      → IsShrinking (if b then m else n)
  if-IsShrinking true m n h k = h
  if-IsShrinking false m n h k = k
