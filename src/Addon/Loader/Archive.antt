-- ===== src/Addon/Loader/Archive.antt =====
-- internal/addon/loader.go: `Load`, which unpacks an archive to a new directory and loads the addon from there. The file
-- system, with its state, and the readers of gzip and of tar are a parameter.
pub mod Cleanup
use text.Mathlib.Text.{starts_with}
use helm_broker.Common.{
  ℕ, String, ◌≡◌, Bool, true, false, Option, none, some, List, Error, Result, ok, err,
  if◌then◌else◌, Result-cases, inl, inr,
}
use helm_broker.Common.Outcomes.{Outcome, failed_with}
use helm_broker.Dict.{Dict}
use helm_broker.Model.Addons.{Addon}
use helm_broker.Model.Charts.{Chart}
use helm_broker.Addon.Form.{FormPlan, Texts}
use helm_broker.Addon.Loader.{Read, content, not_exist, unreadable, Directory, load_dir}

-- The type flags that are told apart.
pub data TypeFlag : Type 0 where
  type_dir type_reg type_other : TypeFlag

pub record Header : Type 0 where
  pub name : String
  pub typeflag : TypeFlag
  pub mode : ℕ
  -- what the reader gives for a file
  pub body : String

-- What `Next` of a tar reader gives, one call after the other.
pub data Entries : Type 0 where
  eof : Entries
  broken : Error → Entries
  next : Header → Entries → Entries

pub record FileSystem (S : Type 0) : Type 0 where
  pub create_tmp_dir : String → String → S → Result String × S
  pub gzip_reader : String → Result Entries
  pub join_path : String → String → String
  pub clean_path : String → String
  pub stat : String → S → Read (Unit {0})
  pub mkdir_all : String → S → Option Error × S
  pub open_file : String → ℕ → S → Option Error × S
  pub copy : String → String → S → Option Error × S
  pub remove_all : String → S → S
  pub directory : String → S → Directory

module _ {S : Type 0} (fs : FileSystem S) where
  abbrev copied : String → String → Option Error × S → Option Error × S
  copied target text (some e, s) = (some e, s)
  copied target text (none, s) = fs.copy target text s

  -- `createFile`
  unfoldable pub create_file : String → ℕ → String → S → Option Error × S
  create_file target mode text s = copied target text (fs.open_file target mode s)

  abbrev made_dir : String → S → Read (Unit {0}) → Option Error × S
  made_dir target s (not_exist e) = fs.mkdir_all target s
  made_dir target s (content u) = (none, s)
  made_dir target s (unreadable e) = (none, s)

  -- The switch over the type of an entry.
  unfoldable pub unpack_entry : String → Header → TypeFlag → S → Option Error × S
  unfolding create_file
  unpack_entry target header type_dir s = made_dir target s (fs.stat target s)
  unpack_entry target header type_reg s = create_file target header.mode header.body s
  unpack_entry target header type_other s = (none, s)

  abbrev unless_failed : (S → Option Error × S) → Option Error × S → Option Error × S
  unless_failed f (some e, s) = (some e, s)
  unless_failed f (none, s) = f s

  -- The loop of `unpackArchive`.
  unfoldable pub unpack_entries : String → Entries → S → Option Error × S
  unfolding unpack_entry
  unpack_entries dir eof s = (none, s)
  unpack_entries dir (broken e) s = (some e, s)
  unpack_entries dir (next header entries) s =
      unless_failed (unpack_entries dir entries)
        (unpack_entry (fs.join_path dir header.name) header header.typeflag s)

  abbrev unpacked : String → Option Error × S → Result String × S
  unpacked dir (some e, s) = (err e, s)
  unpacked dir (none, s) = (ok dir, s)

  abbrev unzipped : String → Result Entries → S → Result String × S
  unfolding unpack_entries
  unzipped dir (err e) s = (err e, s)
  unzipped dir (ok entries) s = unpacked dir (unpack_entries dir entries s)

  abbrev in_tmp_dir : String → Result String × S → Result String × S
  unfolding unzipped
  in_tmp_dir input (err e, s) = (err e, s)
  in_tmp_dir input (ok dir, s) = unzipped dir (fs.gzip_reader input) s

  -- `unpackArchive`
  unfoldable pub unpack_archive : String → String → S → Result String × S
  unfolding in_tmp_dir
  unpack_archive base_dir input s = in_tmp_dir input (fs.create_tmp_dir base_dir "unpacked-addon" s)

  module _ (x : Texts) (order : Dict FormPlan → Dict FormPlan) (tmp_dir : String) where
    -- `Load` from the unpacked directory on; it is removed if it stands in the loader's.
    abbrev load_unpacked : Result String × S → Outcome (Addon × List Chart) × S
    unfolding load_dir
    load_unpacked (err e, s) = (failed_with e, s)
    load_unpacked (ok dir, s) = (
      load_dir (fs.directory dir s) x order,
      if starts_with (fs.clean_path dir) tmp_dir then fs.remove_all dir s else s,
    )

    -- `Load`
    unfoldable pub load : String → S → Outcome (Addon × List Chart) × S
    unfolding unpack_archive load_unpacked
    load input s = load_unpacked (unpack_archive tmp_dir input s)
