-- ===== src/Storage/Fs/Layout.antt =====
-- The shape of the directory tree that fs-storage.cpp keeps, and where each write lands.
use difs.Prelude.{
  Text, codes, text_eq, text_eq_refl, ◌≤◌, ◌≡◌, ◌≢◌, sym, ◌∙◌, if◌then◌else◌, take, drop,
  text_eq-split, arith,
}
use difs.Manifest.{Manifest, get_hash, to_json}
use difs.Storage.{Libs}
use difs.Storage.Disk.{
  FilePath, root, child, path_eq, path_eq_refl, path_eq→eq, within-path_eq_shallow, within, depth,
  absent, directory, file, FileSystem,
}
use difs.Storage.Fs.{exists, data_dir, manifest_dir, insert, insert_manifest, erase, erase_manifest}

module _ (L : Libs) (F : FileSystem) (db_path : Text) where
  abbrev pub data_root : FilePath
  data_root = child (root db_path) (codes "data")

  abbrev pub manifest_root : FilePath
  manifest_root = child (root db_path) (codes "manifest")

  -- The two directories stand; no file stands in the place of a subdirectory of the first, and no
  -- directory in that of a packet or a manifest.
  pub record Layout (fs : F.Fs) : Type 0 where
    pub data_stands : F.stat data_root fs ≡ directory
    pub manifests_stand : F.stat manifest_root fs ≡ directory
    pub subdirs : (x bytes : Text) → F.stat (child data_root x) fs ≢ file bytes
    pub packets : (x y : Text) → F.stat (child (child data_root x) y) fs ≢ directory
    pub manifests : (h : Text) → F.stat (child manifest_root h) fs ≢ directory

  abbrev pub subdir : Text → FilePath
  subdir hash = child data_root (take 2 hash)

  abbrev pub slot : Text → FilePath
  slot hash = child (subdir hash) (drop 2 hash)

  -- Two hashes have one path exactly if they are the same.
  pub path_eq-slot : (a b : Text) → path_eq (slot a) (slot b) ≡ text_eq a b
  unfolding path_eq text_eq
  path_eq-slot a b = rw (text_eq_refl db_path) (text_eq-split 2 a b)

  -- Where an insertion writes: the packet's path and its parent.
  pub stat-insert :
      (d : L.Data) (fs : F.Fs) (q : FilePath)
      → Layout fs
      → F.stat q (insert L F db_path d fs).1 ≡ (
          if path_eq (slot (L.sha1_hash (L.get_name d))) q
          then file (L.wire_encode d)
          else if path_eq (subdir (L.sha1_hash (L.get_name d))) q
          then directory
          else F.stat q fs)
  unfolding insert data_dir path_eq
  stat-insert d fs q v =
      let hash = L.sha1_hash (L.get_name d) in
      let made = F.create_directories (subdir hash) fs in
      let at_made = λ (p : FilePath).
        F.stat-create_directories data_root (take 2 hash) fs p v.data_stands
          (v.subdirs (take 2 hash)) in
      let parent : F.stat (subdir hash) made ≡ directory =
        at_made (subdir hash) ∙ rw (path_eq_refl (subdir hash)) in
      let free : F.stat (slot hash) made ≢ directory =
        λ e. v.packets (take 2 hash) (drop 2 hash) (sym (at_made (slot hash)) ∙ e) in
      F.stat-write_file (subdir hash) (drop 2 hash) (L.wire_encode d) made q parent free
      ∙ rw (at_made q)

  -- Where a manifest is written.
  pub stat-insert_manifest :
      (m : Manifest) (fs : F.Fs) (q : FilePath)
      → Layout fs
      → F.stat q (insert_manifest L F db_path m fs).1 ≡ (
          if path_eq (child manifest_root (get_hash L.sha1 m)) q
          then file (to_json L.sha1 L.json m)
          else F.stat q fs)
  unfolding insert_manifest manifest_dir
  stat-insert_manifest m fs q v =
      F.stat-write_file manifest_root (get_hash L.sha1 m) (to_json L.sha1 L.json m) fs q
        v.manifests_stand (v.manifests (get_hash L.sha1 m))

  -- `erase` and `erase_manifest` at their path: what is there goes, and nothing else of its depth
  -- or above.
  pub erase_at :
      (p q : FilePath) (fs : F.Fs)
      → depth q ≤ depth p
      → F.stat q (if exists (F.stat p fs) then F.remove_all p fs else fs)
        ≡ (if path_eq p q then absent else F.stat q fs)
  erase_at p q fs h =
      ground (arith, F.stat-remove_all p fs q, within-path_eq_shallow p q h, path_eq→eq p q)

  -- Where `erase` removes: the packet's path.
  pub stat-erase :
      (n : Text) (fs : F.Fs) (q : FilePath)
      → depth q ≤ 3
      → F.stat q (erase L F db_path n fs).1
        ≡ (if path_eq (slot (L.sha1_hash n)) q then absent else F.stat q fs)
  unfolding erase data_dir depth
  stat-erase n fs q h = ground (arith, erase_at (slot (L.sha1_hash n)) q fs (omega arith))

  -- Where `erase_manifest` removes: the manifest's path, and nothing in the other directory.
  pub stat-erase_manifest :
      (x : Text) (fs : F.Fs) (q : FilePath)
      → depth q ≤ 2
      → F.stat q (erase_manifest L F db_path x fs).1
        ≡ (if path_eq (child manifest_root x) q then absent else F.stat q fs)
  unfolding erase_manifest manifest_dir depth
  stat-erase_manifest x fs q h = ground (arith, erase_at (child manifest_root x) q fs (omega arith))

  pub packet-erase_manifest :
      (x t u : Text) (fs : F.Fs)
      → F.stat (child (child data_root t) u) (erase_manifest L F db_path x fs).1
        ≡ F.stat (child (child data_root t) u) fs
  unfolding erase_manifest manifest_dir within path_eq text_eq
  packet-erase_manifest x t u fs = ground (
    arith,
    F.stat-remove_all (child manifest_root x) fs (child (child data_root t) u),
    text_eq_refl db_path,
  )
