-- ===== src/Examples/Libraries.antt =====
-- One choice of libraries: packets are a name and a content, SHA-1 is the identity, JSON is the
-- format of `Examples.Format`, and the file system and the collections are functions.
use difs.Prelude.{Text, codes, text_eq, ℕ, ◌%◌, ◌^◌, refl, ◌++◌, Option, none, some, if◌then◌else◌}
use difs.Json.{JsonCodec}
use difs.Manifest.{StorageDoc, ManifestDoc, InfoDoc}
use difs.Storage.{Libs, hash_bytes}
use difs.Storage.Disk.{FilePath, path_eq, within, Node, absent, directory, file, FileSystem}
use difs.Storage.Mongo.{Driver}
use difs.Examples.Format.{Format, text, integer, pair, convert, option, list, codec}

abbrev pub Packet : Type 0
Packet = Text × Text

abbrev pub storage_doc : Format StorageDoc
storage_doc =
    convert (pair (option text) (pair (option integer) (option integer)))
      (λ d. (d.storage_name, (d.segment_start, d.segment_end)))
      (λ t. record { storage_name = t.0; segment_start = t.1.0; segment_end = t.1.1 }) (λ d. refl)

abbrev pub manifest_json : JsonCodec ManifestDoc
manifest_json = codec (
    convert
      (pair (pair (option text) (option text)) (
        pair (pair (option integer) (option integer))
          (pair (option (list storage_doc)) (option integer))))
      (λ d. (
        (d.info_name, d.info_hash),
        ((d.info_start_block_id, d.info_end_block_id), (d.storages, d.segment)),
      ))
      (λ t. record {
        info_name = t.0.0;
        info_hash = t.0.1;
        info_start_block_id = t.1.0.0;
        info_end_block_id = t.1.0.1;
        storages = t.1.1.0;
        segment = t.1.1.1;
      })
      (λ d. refl))

abbrev pub info_json : JsonCodec InfoDoc
info_json = codec (
    convert (pair (option text) (pair (option text) (option integer)))
      (λ d. (d.name, (d.hash, d.segment)))
      (λ t. record { name = t.0; hash = t.1.0; segment = t.1.1 }) (λ d. refl))

abbrev pub packets : JsonCodec Packet
packets = codec (pair text text)

abbrev pub words : Text → ℕ → ℕ
words name i = hash_bytes i name % 2 ^ 32

abbrev pub libs : Libs
libs = record {
  Data = Packet;
  get_name = λ d. d.0;
  get_full_name = λ d. d.0 ++ codes "/sha256digest=" ++ d.1;
  wire_encode = packets.write_json;
  wire_decode = packets.read_json;
  decode-encode = packets.read-write;
  sha1_hash = λ t. t;
  sha1 = words;
  json = manifest_json;
}

abbrev pub memory_fs : FileSystem
memory_fs = record {
  Fs = FilePath → Node;
  stat = λ p fs. fs p;
  write_file = λ p bytes fs q. if path_eq p q then file bytes else fs q;
  create_directories = λ p fs q. if path_eq p q then directory else fs q;
  remove_all = λ p fs q. if within p q then absent else fs q;
  stat-write_file = λ p name bytes fs q there free. refl;
  stat-create_directories = λ p name fs q there free. refl;
  stat-remove_all = λ p fs q. refl;
}

abbrev pub memory_driver : Driver
memory_driver = record {
  Coll = Text → Option Text;
  find_one = λ k c. c k;
  replace_one = λ k v c j. if text_eq k j then some v else c j;
  delete_one = λ k c j. if text_eq k j then none else c j;
  Unique = λ c. Unit {0};
  replace_one-Unique = λ k v c u. tt;
  delete_one-Unique = λ k c u. tt;
  find_one-replace_one = λ k v j c u. refl;
  find_one-delete_one = λ k j c u. refl;
}
