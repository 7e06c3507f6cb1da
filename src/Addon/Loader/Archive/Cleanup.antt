-- ===== src/Addon/Loader/Archive/Cleanup.antt =====
-- What `Load` leaves of the temporary directory: internal/addon/loader.go.
use text.Mathlib.Text.{starts_with}
use helm_broker.Common.{
  ℕ, String, ◌≡◌, Bool, true, false, Option, none, some, Error, Result, ok, err, Result-cases, inl,
  inr,
}
use helm_broker.Dict.{Dict}
use helm_broker.Addon.Form.{FormPlan, Texts}
use helm_broker.Addon.Loader.{content, not_exist, unreadable}
use helm_broker.Addon.Loader.Archive.{
  Header, TypeFlag, Entries, FileSystem, type_dir, type_reg, type_other, eof, broken, next, copied,
  create_file, made_dir, unpack_entry, unless_failed, unpack_entries, unpacked, unpack_archive,
  load_unpacked, load,
}

-- What a directory's being there has to do with the operations: it is there once it is made, the writes of the
-- unpacking leave it, and a removal takes it away.
pub record KeepsDirectories {S : Type 0} (fs : FileSystem S) (exists_dir : String → S → Bool)
    : Type 0 where
  pub created :
      (base prefix dir : String) (s s' : S)
      → fs.create_tmp_dir base prefix s ≡ (ok dir, s')
      → exists_dir dir s' ≡ true
  pub mkdir_keeps :
      (dir target : String) (s : S)
      → exists_dir dir s ≡ true
      → exists_dir dir (fs.mkdir_all target s).1 ≡ true
  pub open_keeps :
      (dir target : String) (mode : ℕ) (s : S)
      → exists_dir dir s ≡ true
      → exists_dir dir (fs.open_file target mode s).1 ≡ true
  pub copy_keeps :
      (dir target text : String) (s : S)
      → exists_dir dir s ≡ true
      → exists_dir dir (fs.copy target text s).1 ≡ true
  pub removed : (dir : String) (s : S) → exists_dir dir (fs.remove_all dir s) ≡ false

-- The result is an error.
abbrev pub has_failed : {A : Type 0} → Result A → Bool
has_failed (ok a) = false
has_failed (err e) = true

module _ {S : Type 0} (fs : FileSystem S) (exists_dir : String → S → Bool)
    (laws : KeepsDirectories fs exists_dir) where
  copied-exists :
      (dir target text : String) (r : Option Error × S)
      → exists_dir dir r.1 ≡ true
      → exists_dir dir (copied fs target text r).1 ≡ true
  copied-exists dir target text (some e, s) h = h
  copied-exists dir target text (none, s) h = laws.copy_keeps dir target text s h

  unpack_entry-exists :
      (dir target : String) (header : Header) (flag : TypeFlag) (s : S)
      → exists_dir dir s ≡ true
      → exists_dir dir (unpack_entry fs target header flag s).1 ≡ true
  unfolding unpack_entry create_file
  unpack_entry-exists dir target header type_dir s h =
      elim (fs.stat target s) as (λ r. exists_dir dir (made_dir fs target s r).1 ≡ true) [
        | content u ↦ h
        | unreadable e ↦ h
        | not_exist e ↦ laws.mkdir_keeps dir target s h
      ]
  unpack_entry-exists dir target header type_reg s h =
      copied-exists dir target header.body (fs.open_file target header.mode s)
        (laws.open_keeps dir target header.mode s h)
  unpack_entry-exists dir target header type_other s h = h

  unless_failed-exists :
      (dir : String) (f : S → Option Error × S) (r : Option Error × S)
      → ((s : S) → exists_dir dir s ≡ true → exists_dir dir (f s).1 ≡ true)
      → exists_dir dir r.1 ≡ true
      → exists_dir dir (unless_failed fs f r).1 ≡ true
  unless_failed-exists dir f (some e, s) keeps h = h
  unless_failed-exists dir f (none, s) keeps h = keeps s h

  unpack_entries-exists :
      (dir at : String) (entries : Entries) (s : S)
      → exists_dir dir s ≡ true
      → exists_dir dir (unpack_entries fs at entries s).1 ≡ true
  unfolding unpack_entries
  unpack_entries-exists dir at eof s h = h
  unpack_entries-exists dir at (broken e) s h = h
  unpack_entries-exists dir at (next header entries) s h =
      unless_failed-exists dir (unpack_entries fs at entries)
        (unpack_entry fs (fs.join_path at header.name) header header.typeflag s)
        (unpack_entries-exists dir at entries)
        (unpack_entry-exists dir (fs.join_path at header.name) header header.typeflag s h)

  module _ (x : Texts) (order : Dict FormPlan → Dict FormPlan) (tmp_dir : String) where
    load_unpacked-exists :
        (dir : String) (r : Option Error × S)
        → exists_dir dir r.1 ≡ true
        → starts_with (fs.clean_path dir) tmp_dir ≡ true
        → exists_dir dir (load_unpacked fs x order tmp_dir (unpacked fs dir r)).1
          ≡ has_failed (unpacked fs dir r).0
    unfolding load_unpacked
    load_unpacked-exists dir (some e, s) h k = h
    load_unpacked-exists dir (none, s) h k = rw k (laws.removed dir s)

    -- `Load` leaves the temporary directory that it has made exactly if the unpacking of the archive fails, also if
    -- the addon does not load, where writes do not take directories away, removals succeed, and the new directory
    -- stands in the loader's.
    pub load-exists :
        (input dir : String) (s s' : S)
        → fs.create_tmp_dir tmp_dir "unpacked-addon" s ≡ (ok dir, s')
        → starts_with (fs.clean_path dir) tmp_dir ≡ true
        → exists_dir dir (load fs x order tmp_dir input s).1
          ≡ has_failed (unpack_archive fs tmp_dir input s).0
    unfolding load unpack_archive
    load-exists input dir s s' h k = elim (Result-cases (fs.gzip_reader input)) [
      | inl (e, g) ↦
          rw (load, unpack_archive, h, g) (laws.created tmp_dir "unpacked-addon" dir s s' h)
      | inr (entries, g) ↦
          rw (load, unpack_archive, h, g)
            (load_unpacked-exists dir (unpack_entries fs dir entries s')
              (unpack_entries-exists dir dir entries s'
                (laws.created tmp_dir "unpacked-addon" dir s s' h))
              k)
    ]
