-- ===== src/Storage/Fs/Valid.antt =====
-- Every operation of fs-storage.cpp keeps the shape of its directory tree.
use difs.Prelude.{
  Text, codes, text_eq, text_eq_refl, ◌≡◌, ◌≢◌, ◌∙◌, true, false, ◌||◌, if◌then◌else◌, arith, some,
  ◌≤◌, sym,
}
use difs.Manifest.{Manifest}
use difs.Storage.{Libs}
use difs.Storage.Disk.{
  FilePath, root, child, path_eq, depth, within, Node, absent, directory, file, FileSystem,
}
use difs.Storage.Fs.{insert, insert_manifest, erase, erase_manifest, make_root, open_storage}
use difs.Storage.Fs.Layout.{
  Layout, data_root, manifest_root, stat-insert, stat-insert_manifest, stat-erase,
  stat-erase_manifest, packet-erase_manifest,
}

not_file : {n : Node} (b : Text) → n ≡ absent → n ≢ file b
not_file b e h = cc

not_directory : {n : Node} → n ≡ absent → n ≢ directory
not_directory e h = cc

module _ (L : Libs) (F : FileSystem) (db_path : Text) where
  pub insert-Layout :
      (d : L.Data) (fs : F.Fs)
      → Layout L F db_path fs
      → Layout L F db_path (insert L F db_path d fs).1
  unfolding path_eq text_eq
  insert-Layout d fs v =
      let at = λ (q : FilePath). stat-insert L F db_path d fs q v in
      record {
        data_stands = at (data_root L F db_path) ∙ v.data_stands;
        manifests_stand = at (manifest_root L F db_path) ∙ v.manifests_stand;
        subdirs = λ x b e. ground (arith, at (child (data_root L F db_path) x), v.subdirs x b);
        packets =
            λ x y e. ground (arith, at (child (child (data_root L F db_path) x) y), v.packets x y);
        manifests = λ h e. ground (arith, at (child (manifest_root L F db_path) h), v.manifests h);
      }

  pub insert_manifest-Layout :
      (m : Manifest) (fs : F.Fs)
      → Layout L F db_path fs
      → Layout L F db_path (insert_manifest L F db_path m fs).1
  unfolding path_eq text_eq
  insert_manifest-Layout m fs v =
      let at = λ (q : FilePath). stat-insert_manifest L F db_path m fs q v in
      record {
        data_stands = at (data_root L F db_path) ∙ v.data_stands;
        manifests_stand = at (manifest_root L F db_path) ∙ v.manifests_stand;
        subdirs = λ x b e. ground (arith, at (child (data_root L F db_path) x), v.subdirs x b);
        packets =
            λ x y e. ground (arith, at (child (child (data_root L F db_path) x) y), v.packets x y);
        manifests = λ h e. ground (arith, at (child (manifest_root L F db_path) h), v.manifests h);
      }

  pub erase-Layout :
      (n : Text) (fs : F.Fs) → Layout L F db_path fs → Layout L F db_path (erase L F db_path n fs).1
  unfolding path_eq text_eq depth
  erase-Layout n fs v =
      let at = λ (q : FilePath) (h : depth q ≤ 3). stat-erase L F db_path n fs q h in
      record {
        data_stands = at (data_root L F db_path) (omega arith) ∙ v.data_stands;
        manifests_stand = at (manifest_root L F db_path) (omega arith) ∙ v.manifests_stand;
        subdirs = λ x b e.
            ground (arith, at (child (data_root L F db_path) x) (omega arith), v.subdirs x b);
        packets = λ x y e.
            ground
              (arith, at (child (child (data_root L F db_path) x) y) (omega arith), v.packets x y);
        manifests = λ h e.
            ground (arith, at (child (manifest_root L F db_path) h) (omega arith), v.manifests h);
      }

  pub erase_manifest-Layout :
      (n : Text) (fs : F.Fs)
      → Layout L F db_path fs
      → Layout L F db_path (erase_manifest L F db_path n fs).1
  unfolding path_eq text_eq depth
  erase_manifest-Layout n fs v =
      let at = λ (q : FilePath) (h : depth q ≤ 2). stat-erase_manifest L F db_path n fs q h in
      record {
        data_stands = at (data_root L F db_path) (omega arith) ∙ v.data_stands;
        manifests_stand = at (manifest_root L F db_path) (omega arith) ∙ v.manifests_stand;
        subdirs = λ x b e.
            ground (arith, at (child (data_root L F db_path) x) (omega arith), v.subdirs x b);
        packets = λ x y e. v.packets x y (sym (packet-erase_manifest L F db_path n x y fs) ∙ e);
        manifests = λ h e.
            ground (arith, at (child (manifest_root L F db_path) h) (omega arith), v.manifests h);
      }

  -- The two directories that the constructor makes in an empty one.
  stat-make_dirs :
      (fs : F.Fs) (q : FilePath)
      → F.stat (root db_path) fs ≡ directory
      → ((c b : Text) → F.stat (child (root db_path) c) fs ≢ file b)
      → F.stat q (
          F.create_directories
            (manifest_root L F db_path)
            (F.create_directories (data_root L F db_path) fs))
        ≡ (if path_eq (manifest_root L F db_path) q
            then directory
            else if path_eq (data_root L F db_path) q
            then directory
            else F.stat q fs)
  unfolding path_eq text_eq
  stat-make_dirs fs q here free =
      let first = λ (p : FilePath).
        F.stat-create_directories (root db_path) (codes "data") fs p here (free (codes "data")) in
      let there = first (root db_path) ∙ here in
      F.stat-create_directories (root db_path) (codes "manifest") _ q there (λ b e.
        ground (arith, first (child (root db_path) (codes "manifest")), free (codes "manifest") b))
      ∙ rw (first q)

  -- On a directory with nothing in it the constructor succeeds, and the tree has its shape.
  pub open_storage-Layout :
      (fs : F.Fs)
      → F.stat (root db_path) fs ≡ directory
      → ((q : FilePath) (c : Text)
          → within (root db_path) q ≡ true
          → F.stat (child q c) fs ≡ absent)
      → (made : F.Fs) × (open_storage L F db_path fs ≡ some made) × Layout L F db_path made
  unfolding open_storage path_eq text_eq within
  open_storage-Layout fs here empty =
      let at_root : within (root db_path) (root db_path) ≡ true = text_eq_refl db_path in
      let below : (false || within (root db_path) (root db_path)) ≡ true = at_root in
      let free = λ (c b : Text). not_file b (empty (root db_path) c at_root) in
      let at = λ (q : FilePath). stat-make_dirs fs q here free in
      (
        F.create_directories (manifest_root L F db_path)
            (F.create_directories (data_root L F db_path) fs),
        rw (here, make_root),
        record {
          data_stands = ground (arith, at (data_root L F db_path), text_eq_refl db_path);
          manifests_stand = ground (arith, at (manifest_root L F db_path), text_eq_refl db_path);
          subdirs = λ x b e. ground (
            arith,
            at (child (data_root L F db_path) x),
            not_file b (empty (data_root L F db_path) x below),
          );
          packets = λ x y e. ground (
            arith,
            at (child (child (data_root L F db_path) x) y),
            not_directory (empty (child (data_root L F db_path) x) y below),
          );
          manifests = λ h e. ground (
            arith,
            at (child (manifest_root L F db_path) h),
            not_directory (empty (manifest_root L F db_path) h below),
          );
        },
      )
