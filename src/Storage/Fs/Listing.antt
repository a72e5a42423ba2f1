-- ===== src/Storage/Fs/Listing.antt =====
-- `readDatas`, `readManifests` and `size` of src/storage/fs-storage.cpp. A list is a property tree
-- of names or hashes; `none` is an exception.
use difs.Prelude.{Text, ℕ, List, [], ◌∷◌, ◌++◌, Option, none, some, length}
use difs.Json.{◌>>=◌}
use difs.Storage.{Libs}
use difs.Storage.Disk.{FilePath, child, Node, absent, directory, file, FileSystem}
use difs.Storage.Fs.{contents, data_dir, manifest_dir}

-- `boost::filesystem::directory_iterator`: the names of what stands in a directory.
pub record Directories (F : FileSystem) : Type 0 where
  pub list_dir : FilePath → F.Fs → List Text

module _ (L : Libs) (F : FileSystem) (I : Directories F) (db_path : Text) where
  -- An iterator on what is no directory throws.
  abbrev pub entries : Node → List Text → Option (List Text)
  entries absent names = none
  entries directory names = some names
  entries (file bytes) names = none

  unfoldable pub iterate : FilePath → F.Fs → Option (List Text)
  iterate p fs = entries (F.stat p fs) (I.list_dir p fs)

  -- A file that does not open is passed over; one that does not decode throws. Where a directory
  -- stands, which no operation of the storage makes, nothing opens.
  abbrev name_in : Option Text → Option (List Text)
  name_in none = some []
  name_in (some bytes) = do d ← L.wire_decode bytes; some (L.get_name d ∷ [])

  unfoldable pub read_files : FilePath → List Text → F.Fs → Option (List Text)
  read_files p [] fs = some []
  read_files p (name ∷ names) fs = do
    first ← name_in (contents (F.stat (child p name) fs))
    rest ← read_files p names fs
    some (first ++ rest)

  unfoldable pub read_dirs : List Text → F.Fs → Option (List Text)
  unfolding iterate read_files data_dir
  read_dirs [] fs = some []
  read_dirs (dir ∷ dirs) fs = do
    let path = child (data_dir L F db_path) dir
    names ← iterate path fs
    first ← read_files path names fs
    rest ← read_dirs dirs fs
    some (first ++ rest)

  unfoldable pub read_datas : F.Fs → Option (List Text)
  unfolding iterate read_dirs data_dir
  read_datas fs = do dirs ← iterate (data_dir L F db_path) fs; read_dirs dirs fs

  unfoldable pub read_manifests : F.Fs → Option (List Text)
  unfolding iterate manifest_dir
  read_manifests fs = iterate (manifest_dir L F db_path) fs

  -- The entries of the first level, which are directories.
  unfoldable pub size : F.Fs → Option ℕ
  unfolding iterate data_dir
  size fs = do dirs ← iterate (data_dir L F db_path) fs; some (length dirs)
