-- ===== src/FileSystem.antt =====
-- apexd/apexd_utils.h over an explicit file system: regular files by their paths, each with the number
-- of the contents that it links to, and the directories that exist.
use Prim.Native.String.{◌++◌ as append}
use text.Mathlib.Text.{starts_with}
use system_apex.Base.{
  ℕ, String, Bool, true, false, not, ◌&&◌, ◌||◌, Option, none, some, List, [], ◌∷◌, Dict, find,
  assign, erase, Result, ok, error, is_some, ◌==◌, if◌then◌else◌, any, contains,
}
use system_apex.Text.{filename, parent_path, ends_with, strip_prefix}

pub record FileSystem : Type 0 where
  pub files : Dict ℕ
  pub dirs : List String

-- The calls that fail for a reason that lies outside the tree of files, by their path.
pub record FileIo : Type 0 where
  pub unlink_fails : String → Bool
  pub link_fails : String → Bool
  pub rename_fails : String → Bool
  pub list_fails : String → Bool
  pub remove_fails : String → Bool
  pub mkdir_fails : String → Bool

-- `access(path, F_OK) == 0` of a file.
unfoldable pub file_exists : FileSystem → String → Bool
file_exists fs path = is_some (find fs.files path)

-- A path below one directory, as it is after the directory has another name.
abbrev moved_path : String → String → Option String → String → String
moved_path from to none path = path
moved_path from to (some rest) path = append to (append "/" rest)

unfoldable pub move_below : String → String → Dict ℕ → Dict ℕ
move_below from to [] = []
move_below from to ((path, contents) ∷ rest) =
    (moved_path from to (strip_prefix (append from "/") path) path, contents)
    ∷ move_below from to rest

unfoldable pub erase_dir : String → List String → List String
erase_dir dir [] = []
erase_dir dir (d ∷ ds) = let rest = erase_dir dir ds in if d == dir then rest else d ∷ rest

unfoldable pub is_below : String → String → Bool
is_below dir path = starts_with path (append dir "/")

module _ (io : FileIo) where
  -- unlink(2): whether it succeeded, and the tree after it.
  unfoldable pub unlink : FileSystem → String → Bool × FileSystem
  unlink fs path =
      if is_some (find fs.files path) && not (io.unlink_fails path)
      then (true, record fs { files = erase fs.files path })
      else (false, fs)

  -- link(2) of an existing file to a path where none is.
  unfoldable pub link : FileSystem → String → String → Bool × FileSystem
  link fs from to = elim (find fs.files from) [
    | none ↦ (false, fs)
    | some contents ↦
        if is_some (find fs.files to) || io.link_fails to
        then (false, fs)
        else (true, record fs { files = assign fs.files to contents })
  ]

  -- rename(2) of a file.
  unfoldable pub rename : FileSystem → String → String → Bool × FileSystem
  rename fs from to = elim (find fs.files from) [
    | none ↦ (false, fs)
    | some contents ↦
        if io.rename_fails from
        then (false, fs)
        else (true, record fs { files = assign (erase fs.files from) to contents })
  ]

  -- The files of a directory whose names end in one of the suffixes.
  unfoldable pub with_suffix : String → List String → Dict ℕ → List String
  with_suffix dir suffixes [] = []
  with_suffix dir suffixes ((path, contents) ∷ rest) =
      let later = with_suffix dir suffixes rest in
      if parent_path path == dir && any (λ suffix. ends_with (filename path) suffix) suffixes
      then path ∷ later
      else later

  -- `FindFilesBySuffix`.
  unfoldable pub find_files_by_suffix : FileSystem → String → List String → Result (List String)
  find_files_by_suffix fs dir suffixes =
      if contains fs.dirs dir && not (io.list_fails dir)
      then ok (with_suffix dir suffixes fs.files)
      else error (append "Can't open " (append dir " for reading : "))

  -- `PathExists`.
  unfoldable pub path_exists : FileSystem → String → Bool
  path_exists fs path = contains fs.dirs path || is_some (find fs.files path)

  -- `CreateDirIfNeeded`; the mode is not modelled.
  unfoldable pub create_dir_if_needed : FileSystem → String → Result (Unit {0}) × FileSystem
  create_dir_if_needed fs path =
      if contains fs.dirs path
      then (ok tt, fs)
      else if is_some (find fs.files path)
      then (error (append path " exists and is not a directory."), fs)
      else if io.mkdir_fails path
      then (error (append "Could not mkdir " path), fs)
      else (ok tt, record fs { dirs = path ∷ fs.dirs })

  -- The loop of `DeleteDirContent`, over the paths below the directory: it ends at the first that
  -- cannot be removed.
  unfoldable pub remove_below : String → Dict ℕ → Result (Unit {0}) × Dict ℕ
  remove_below dir [] = (ok tt, [])
  remove_below dir ((path, contents) ∷ rest) =
      let later = remove_below dir rest in
      if not (is_below dir path)
      then (later.0, (path, contents) ∷ later.1)
      else if io.remove_fails path
      then (error (append "Failed to delete path " path), (path, contents) ∷ rest)
      else later

  -- `DeleteDirContent`.
  unfoldable pub delete_dir_content : FileSystem → String → Result (Unit {0}) × FileSystem
  delete_dir_content fs dir =
      if contains fs.dirs dir && not (io.list_fails dir)
      then (let removed = remove_below dir fs.files in (removed.0, record fs { files = removed.1 }))
      else (error (append "Failed to delete " dir), fs)

  -- `RemoveFileIfExists`, whose failure is logged.
  unfoldable pub remove_file_if_exists : FileSystem → String → FileSystem
  remove_file_if_exists fs path = (unlink fs path).1

  -- rename(2) of a directory whose place is free or an empty directory.
  unfoldable pub rename_dir : FileSystem → String → String → Bool × FileSystem
  rename_dir fs from to =
      if contains fs.dirs from && not (io.rename_fails from || any (λ e. is_below to e.0) fs.files)
      then (
        true,
        record fs { files = move_below from to fs.files; dirs = to ∷ erase_dir from fs.dirs },
      )
      else (false, fs)
