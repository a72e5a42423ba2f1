-- ===== src/Storage/Fs/Refines.antt =====
-- fs-storage.cpp meets the contract of the abstract storage.
use difs.Prelude.{Text, text_eq, text_eq_refl, ◌≡◌, refl, if◌then◌else◌, arith, take, drop}
use difs.Manifest.{Manifest, get_hash}
use difs.Storage.{Libs, Loaded, missing, stored, same_key, Contract}
use difs.Storage.Disk.{FilePath, child, path_eq, depth, FileSystem}
use difs.Storage.Fs.{
  data_dir, manifest_dir, insert, insert_manifest, erase, erase_manifest, read, read_manifest, has,
  has_manifest, fs_storage,
}
use difs.Storage.Fs.Layout.{
  Layout, manifest_root, slot, path_eq-slot, stat-insert, stat-insert_manifest, stat-erase,
  stat-erase_manifest, packet-erase_manifest,
}
use difs.Storage.Fs.Valid.{
  insert-Layout, insert_manifest-Layout, erase-Layout, erase_manifest-Layout,
}

module _ (L : Libs) (F : FileSystem) (db_path : Text) where
  abbrev slot_of : Text → FilePath
  slot_of n = slot L F db_path (L.sha1_hash n)

  abbrev manifest_of : Text → FilePath
  manifest_of h = child (manifest_root L F db_path) h

  read-insert :
      (d : L.Data) (n : Text) (fs : F.Fs)
      → Layout L F db_path fs
      → read L F db_path n (insert L F db_path d fs).1
        ≡ (if same_key L (L.get_name d) n then Loaded.found d else read L F db_path n fs)
  unfolding read data_dir path_eq
  read-insert d n fs v = ground (
    arith,
    stat-insert L F db_path d fs (slot_of n) v,
    path_eq-slot L F db_path (L.sha1_hash (L.get_name d)) (L.sha1_hash n),
    L.decode-encode d,
  )

  read-insert_manifest :
      (m : Manifest) (n : Text) (fs : F.Fs)
      → Layout L F db_path fs
      → read L F db_path n (insert_manifest L F db_path m fs).1 ≡ read L F db_path n fs
  unfolding read data_dir path_eq
  read-insert_manifest m n fs v =
      ground (arith, stat-insert_manifest L F db_path m fs (slot_of n) v)

  read-erase :
      (x n : Text) (fs : F.Fs)
      → read L F db_path n (erase L F db_path x fs).1
        ≡ (if same_key L x n then missing else read L F db_path n fs)
  unfolding read data_dir depth
  read-erase x n fs = ground (
    arith,
    stat-erase L F db_path x fs (slot_of n) (omega arith),
    path_eq-slot L F db_path (L.sha1_hash x) (L.sha1_hash n),
  )

  read-erase_manifest :
      (h n : Text) (fs : F.Fs)
      → read L F db_path n (erase_manifest L F db_path h fs).1 ≡ read L F db_path n fs
  unfolding read data_dir
  read-erase_manifest h n fs = ground (
    arith,
    packet-erase_manifest L F db_path h (take 2 (L.sha1_hash n)) (drop 2 (L.sha1_hash n)) fs,
  )

  read_manifest-insert :
      (d : L.Data) (h : Text) (fs : F.Fs)
      → Layout L F db_path fs
      → read_manifest L F db_path h (insert L F db_path d fs).1 ≡ read_manifest L F db_path h fs
  unfolding read_manifest manifest_dir path_eq text_eq
  read_manifest-insert d h fs v = ground (arith, stat-insert L F db_path d fs (manifest_of h) v)

  same_manifest : (a b : Text) → path_eq (manifest_of a) (manifest_of b) ≡ text_eq a b
  unfolding path_eq text_eq
  same_manifest a b = rw (text_eq_refl db_path)

  read_manifest-insert_manifest :
      (m : Manifest) (h : Text) (fs : F.Fs)
      → Layout L F db_path fs
      → read_manifest L F db_path h (insert_manifest L F db_path m fs).1
        ≡ (if text_eq (get_hash L.sha1 m) h then stored L m else read_manifest L F db_path h fs)
  unfolding read_manifest manifest_dir
  read_manifest-insert_manifest m h fs v = ground (
    arith,
    stat-insert_manifest L F db_path m fs (manifest_of h) v,
    same_manifest (get_hash L.sha1 m) h,
  )

  read_manifest-erase :
      (x h : Text) (fs : F.Fs)
      → read_manifest L F db_path h (erase L F db_path x fs).1 ≡ read_manifest L F db_path h fs
  unfolding read_manifest manifest_dir depth path_eq text_eq
  read_manifest-erase x h fs =
      ground (arith, stat-erase L F db_path x fs (manifest_of h) (omega arith))

  read_manifest-erase_manifest :
      (x h : Text) (fs : F.Fs)
      → read_manifest L F db_path h (erase_manifest L F db_path x fs).1
        ≡ (if text_eq x h then missing else read_manifest L F db_path h fs)
  unfolding read_manifest manifest_dir depth
  read_manifest-erase_manifest x h fs =
      ground (
        arith,
        stat-erase_manifest L F db_path x fs (manifest_of h) (omega arith),
        same_manifest x h,
      )

  -- `fs_storage` is the abstract storage: two independent maps, data by the SHA-1 of its name and
  -- manifests by their hash, on every directory tree of the expected shape.
  pub fs_storage-Contract : Contract L (fs_storage L F db_path) (Layout L F db_path)
  unfolding has read has_manifest read_manifest insert insert_manifest erase erase_manifest data_dir
      manifest_dir
  fs_storage-Contract = record {
    insert-Valid = insert-Layout L F db_path;
    insert_manifest-Valid = insert_manifest-Layout L F db_path;
    erase-Valid = erase-Layout L F db_path;
    erase_manifest-Valid = erase_manifest-Layout L F db_path;
    read-insert = read-insert;
    read-insert_manifest = read-insert_manifest;
    read-erase = λ x n fs v. read-erase x n fs;
    read-erase_manifest = λ h n fs v. read-erase_manifest h n fs;
    read_manifest-insert = read_manifest-insert;
    read_manifest-insert_manifest = read_manifest-insert_manifest;
    read_manifest-erase = λ x h fs v. read_manifest-erase x h fs;
    read_manifest-erase_manifest = λ x h fs v. read_manifest-erase_manifest x h fs;
    has-read =
        λ n fs v. ground (arith, v.packets (take 2 (L.sha1_hash n)) (drop 2 (L.sha1_hash n)));
    has_manifest-read = λ h fs v. ground (arith, v.manifests h);
    insert-result = λ d fs. refl;
    insert_manifest-result = λ m fs. refl;
    erase-result = λ n fs v. ground arith;
    erase_manifest-result = λ h fs v. ground arith;
  }
