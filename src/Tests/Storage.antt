-- ===== src/Tests/Storage.antt =====
-- The storages and `RepoStorage` on concrete packets and manifests.
use difs.Prelude.{Text, codes, text_eq, ◌≡◌, refl, true, [], ◌∷◌, none, some, if◌then◌else◌}
use difs.Prelude.Int.{pos}
use difs.Manifest.{Manifest}
use difs.Storage.{found, Contract}
use difs.Storage.Disk.{FilePath, root, child, path_eq, within, Node, absent, directory}
use difs.Storage.Fs
use difs.Storage.Fs.{fs_storage, open_storage}
use difs.Storage.Fs.Layout.{Layout}
use difs.Storage.Fs.Valid.{open_storage-Layout}
use difs.Storage.Fs.Refines.{fs_storage-Contract}
use difs.Storage.Mongo.{Db, mongo_storage}
use difs.Storage.Mongo.Refines.{Keyed, mongo_storage-Contract}
use difs.Storage.RepoStorage.{insert_data, read_data}
use difs.Storage.RepoStorage.Laws.{read-insert_data}
use difs.Examples.Libraries.{Packet, libs, memory_fs, memory_driver}

abbrev db_path : Text
db_path = codes "/var/repo"

abbrev packet : Packet
packet = (codes "/a/b", codes "hello")

abbrev manifest : Manifest
manifest = record {
  name = codes "/a";
  hash = [];
  repos = record { name = codes "/node1"; start = pos 0; end = pos 2 } ∷ [];
  start_block_id = pos 0;
  end_block_id = pos 2;
}

abbrev empty_fs : FilePath → Node
empty_fs q = if path_eq (root db_path) q then directory else absent

empty_below :
    (q : FilePath) (c : Text) → within (root db_path) q ≡ true → empty_fs (child q c) ≡ absent
unfolding path_eq
empty_below q c h = refl

-- What the constructor makes of it.
abbrev made_fs : FilePath → Node
made_fs q =
    if path_eq (child (root db_path) (codes "manifest")) q
    then directory
    else if path_eq (child (root db_path) (codes "data")) q
    then directory
    else empty_fs q

open_storage-Layout_example :
    (made : FilePath → Node) × (open_storage libs memory_fs db_path empty_fs ≡ some made)
    × Layout libs memory_fs db_path made
unfolding path_eq text_eq
open_storage-Layout_example = open_storage-Layout libs memory_fs db_path empty_fs refl empty_below

made_fs-Layout : Layout libs memory_fs db_path made_fs
unfolding path_eq text_eq
made_fs-Layout = record {
  data_stands = refl;
  manifests_stand = refl;
  subdirs = λ x b e. cc;
  packets = λ x y e. cc;
  manifests = λ h e. cc;
}

abbrev empty_db : Db libs memory_driver
empty_db = record { data_coll = λ k. none; manifest_coll = λ k. none }

empty_db-Keyed : Keyed libs memory_driver empty_db
empty_db-Keyed = record { data_unique = tt; manifests_unique = tt }

fs_storage-Contract_example :
    Contract libs (fs_storage libs memory_fs db_path) (Layout libs memory_fs db_path)
fs_storage-Contract_example = fs_storage-Contract libs memory_fs db_path

mongo_storage-Contract_example :
    Contract libs (mongo_storage libs memory_driver) (Keyed libs memory_driver)
mongo_storage-Contract_example = mongo_storage-Contract libs memory_driver

read-insert_data_example :
    read_data libs
      (fs_storage libs memory_fs db_path)
      (codes "/a/b")
      (insert_data libs (fs_storage libs memory_fs db_path) packet made_fs).1
    ≡ found packet
unfolding Fs.has path_eq text_eq
read-insert_data_example =
    read-insert_data libs (fs_storage libs memory_fs db_path) (Layout libs memory_fs db_path)
      (fs_storage-Contract libs memory_fs db_path) packet (codes "/a/b") made_fs made_fs-Layout
