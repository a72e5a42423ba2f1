-- ===== src/Storage/Fs.antt =====
-- src/storage/fs-storage.cpp: packets and manifests as files. Log lines are left out.
pub mod Layout
pub mod Valid
pub mod Refines
pub mod Listing
use difs.Prelude.{
  Text, codes, ℕ, List, [], ◌∷◌, Bool, true, false, Option, none, some, if◌then◌else◌, take, drop,
}
use difs.Prelude.Int.{ℤ}
use difs.Manifest.{Manifest, get_hash, to_json, from_json}
use difs.Storage.{Libs, Loaded, missing, loaded, hash_id, Storage}
use difs.Storage.Disk.{FilePath, root, child, Node, absent, directory, file, FileSystem}

-- `boost::filesystem::exists(status(path))`.
abbrev pub exists : Node → Bool
exists absent = false
exists directory = true
exists (file bytes) = true

-- Opening the path and reading all of it. No path that the storage reads is a directory.
abbrev pub contents : Node → Option Text
contents absent = none
contents directory = none
contents (file bytes) = some bytes

abbrev parse : {A : Type 0} → (Text → Option A) → Option Text → Loaded A
parse decode none = missing
parse decode (some bytes) = loaded (decode bytes)

module _ (L : Libs) (F : FileSystem) (db_path : Text) where
  -- `m_path / DIRNAME_DATA` and `m_path / DIRNAME_MANIFEST`.
  unfoldable pub data_dir : FilePath
  data_dir = child (root db_path) (codes "data")

  unfoldable pub manifest_dir : FilePath
  manifest_dir = child (root db_path) (codes "manifest")

  -- `getPath(name, DIRNAME_DATA)`: the first two digits name a directory, the rest a file.
  unfoldable pub get_path : Text → FilePath
  get_path name = let hash = L.sha1_hash name in child (child data_dir (take 2 hash)) (drop 2 hash)

  unfoldable pub manifest_path : Text → FilePath
  manifest_path hash = child manifest_dir hash

  -- `fsPath.parent_path()`.
  unfoldable pub parent_path : FilePath → FilePath
  parent_path (root a) = root a
  parent_path (child p a) = p

  unfoldable pub write_data : L.Data → F.Fs → ℤ × F.Fs
  unfolding get_path parent_path
  write_data d fs =
      let name = L.get_name d in
      let path = get_path name in
      let made = F.create_directories (parent_path path) fs in
      (hash_id name, F.write_file path (L.wire_encode d) made)

  unfoldable pub insert : L.Data → F.Fs → ℤ × F.Fs
  unfolding write_data
  insert d fs = write_data d fs

  unfoldable pub insert_manifest : Manifest → F.Fs → Text × F.Fs
  unfolding manifest_path
  insert_manifest m fs =
      let path = manifest_path (get_hash L.sha1 m) in
      (get_hash L.sha1 m, F.write_file path (to_json L.sha1 L.json m) fs)

  unfoldable pub erase : Text → F.Fs → Bool × F.Fs
  unfolding get_path
  erase name fs =
      let path = get_path name in
      if exists (F.stat path fs) then (true, F.remove_all path fs) else (false, fs)

  unfoldable pub erase_manifest : Text → F.Fs → Bool × F.Fs
  unfolding manifest_path
  erase_manifest hash fs =
      let path = manifest_path hash in
      if exists (F.stat path fs) then (true, F.remove_all path fs) else (false, fs)

  unfoldable pub read : Text → F.Fs → Loaded L.Data
  unfolding get_path
  read name fs = parse L.wire_decode (contents (F.stat (get_path name) fs))

  unfoldable pub read_manifest : Text → F.Fs → Loaded Manifest
  unfolding manifest_path
  read_manifest hash fs = parse (from_json L.json) (contents (F.stat (manifest_path hash) fs))

  unfoldable pub has : Text → F.Fs → Bool
  unfolding get_path
  has name fs = exists (F.stat (get_path name) fs)

  unfoldable pub has_manifest : Text → F.Fs → Bool
  unfolding manifest_path
  has_manifest hash fs = exists (F.stat (manifest_path hash) fs)

  -- The constructor on a path that is not empty; `none` is its exception.
  unfoldable pub make_root : Node → F.Fs → Option F.Fs
  make_root directory fs = some fs
  make_root absent fs = some (F.create_directories (root db_path) fs)
  make_root (file bytes) fs = none

  unfoldable pub make_dirs : Option F.Fs → Option F.Fs
  unfolding data_dir manifest_dir
  make_dirs none = none
  make_dirs (some fs) = some (F.create_directories manifest_dir (F.create_directories data_dir fs))

  unfoldable pub open_storage : F.Fs → Option F.Fs
  unfolding make_root make_dirs
  open_storage fs = make_dirs (make_root (F.stat (root db_path) fs) fs)

  abbrev pub fs_storage : Storage L
  fs_storage = record {
    State = F.Fs;
    insert = insert;
    insert_manifest = insert_manifest;
    erase = erase;
    erase_manifest = erase_manifest;
    read = read;
    read_manifest = read_manifest;
    has = has;
    has_manifest = has_manifest;
  }
