-- ===== src/Tests/Listing.antt =====
-- The enumerations on a file system and a database that each hold one manifest.
use difs.Prelude.{◌++◌, Text, codes, text_eq, among, ◌≡◌, refl, [], ◌∷◌, none, some, All, arith}
use difs.Prelude.Int.{pos}
use difs.Manifest.{Manifest, get_hash, to_json}
use difs.Storage.Disk.{root, child, path_eq}
use difs.Storage.Fs.Layout.{Layout}
use difs.Storage.Fs.Listing as FsListing
use difs.Storage.Mongo
use difs.Storage.Mongo.{Db}
use difs.Storage.Mongo.Listing as MongoListing
use difs.Storage.Mongo.Listing.{IsOwn, IsOwnPacket}
use difs.Manifest.Documents.{from_json-to_json}
use difs.Storage.Mongo.Refines.{Keyed}
use difs.Examples.Finite.{Entries, listed_fs, directories, listed_driver, cursor}
use difs.Examples.Libraries.{libs, Packet}
use difs.Examples.Format.{text, number, integer, pair, convert, list, codec}
use difs.InfoHandle.{System, InfoReply, info_filter, handle_info_command}
use difs.InfoHandle.Listed.{handle_info_command-lists}
use difs.Json.{JsonCodec}

abbrev db_path : Text
db_path = codes "/var/repo"

abbrev manifest : Manifest
manifest = record {
  name = codes "/a";
  hash = [];
  repos = record { name = codes "/node1"; start = pos 0; end = pos 2 } ∷ [];
  start_block_id = pos 0;
  end_block_id = pos 2;
}

abbrev key : Text
key = get_hash libs.sha1 manifest

abbrev value : Text
value = to_json libs.sha1 libs.json manifest

abbrev full_fs : Entries
full_fs =
    (child (child (root db_path) (codes "manifest")) key, some value)
    ∷ (child (root db_path) (codes "manifest"), none)
    ∷ (child (root db_path) (codes "data"), none)
    ∷ (root db_path, none)
    ∷ []

full_fs-Layout : Layout libs listed_fs db_path full_fs
unfolding path_eq text_eq
full_fs-Layout = record {
  data_stands = refl;
  manifests_stand = refl;
  subdirs = λ x b e. cc;
  packets = λ x y e. cc;
  manifests = λ h e. ground arith;
}

-- `readManifests` of the file storage.
listed_manifests :
    FsListing.read_manifests libs listed_fs directories db_path full_fs ≡ some (key ∷ [])
unfolding FsListing.read_manifests path_eq text_eq
listed_manifests = refl

abbrev full_db : Db libs listed_driver
full_db = record { data_coll = []; manifest_coll = (key, value) ∷ [] }

full_db-Keyed : Keyed libs listed_driver full_db
full_db-Keyed = record { data_unique = tt; manifests_unique = tt }

full_db-IsOwn : All (IsOwn libs listed_driver cursor) ((key, value) ∷ [])
full_db-IsOwn = (
  record {
    manifest = manifest;
    reads = from_json-to_json libs.sha1 libs.json manifest;
    hash = refl;
  },
  tt,
)

abbrev info_json : JsonCodec InfoReply
info_json = codec (
    convert
      (pair (pair text (pair number number))
        (pair (pair integer integer) (pair (list text) (list text))))
      (λ d. (
        (d.name, (d.disk_size, d.disk_usage)),
        ((d.memory_size, d.memory_usage), (d.datas, d.manifests)),
      ))
      (λ t. record {
        name = t.0.0;
        disk_size = t.0.1.0;
        disk_usage = t.0.1.1;
        memory_size = t.1.0.0;
        memory_usage = t.1.0.1;
        datas = t.1.1.0;
        manifests = t.1.1.1;
      })
      (λ d. refl))

abbrev system : System
system = record { f_blocks = 1000; f_bavail = 500; f_bsize = 4096; totalram = 2048; freeram = 1024 }

abbrev packet : Packet
packet = (codes "/a/b", codes "hello")

abbrev kept_db : Db libs listed_driver
kept_db = record full_db { data_coll = (codes "/a/b", libs.wire_encode packet) ∷ [] }

kept_db-Keyed : Keyed libs listed_driver kept_db
kept_db-Keyed = record { data_unique = tt; manifests_unique = tt }

kept_db-IsOwnPacket :
    All (IsOwnPacket libs listed_driver cursor) ((codes "/a/b", libs.wire_encode packet) ∷ [])
kept_db-IsOwnPacket =
    (record { packet = packet; decodes = libs.decode-encode packet; key = refl }, tt)

handle_info_command-lists_example :
    (answer : Text) × (handle_info_command info_json system
        (info_filter (codes "/n"))
        (MongoListing.read_datas libs listed_driver cursor kept_db)
        (MongoListing.read_manifests libs listed_driver cursor kept_db)
      ≡ some answer)
    × (reply : InfoReply) × (info_json.read_json answer ≡ some reply)
    × (reply.name ≡ codes "/n" ++ codes "/info")
    × ((x : Text)
        → MongoListing.names_key libs listed_driver cursor x reply.datas
          ≡ Mongo.has libs listed_driver x kept_db)
    × ((x : Text) → among x reply.manifests ≡ Mongo.has_manifest libs listed_driver x kept_db)
handle_info_command-lists_example =
    handle_info_command-lists libs listed_driver cursor info_json system (codes "/n") kept_db
      kept_db-Keyed kept_db-IsOwnPacket full_db-IsOwn
