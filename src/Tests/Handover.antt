-- ===== src/Tests/Handover.antt =====
-- Two nodes, with the two kinds of storages, of which one takes a manifest over from the other.
use difs.Prelude.{
  Text, codes, text_eq, sym, false, text_eq_iff, among, ◌≡◌, refl, ap, ◌∙◌, subst, Bool-cases, true,
  ◌&&◌, ◌++◌, drop, inl, inr, List, [], ◌∷◌, none, some, arith, if◌then◌else◌,
}
use difs.Prelude.Int.{pos}
use difs.Prelude.Hex.{hex_fixed}
use difs.Manifest.{Manifest, hash_of, get_hash}
use difs.Manifest.Documents.{from_json-to_json}
use difs.Storage.{Storage, missing, found, is_there, hash_bytes}
use difs.Storage.Mongo
use difs.Storage.Mongo.{Db, mongo_storage}
use difs.Storage.Mongo.Refines.{Keyed, mongo_storage-Contract}
use difs.Storage.RepoStorage.{insert_manifest, read_manifest}
use difs.Storage.RepoStorage.Laws.{read_manifest-insert_manifest}
use difs.KeySpace.Handle.{
  KeySpaceHandle, done, replied_text, c_text, on_manifest_list_command_response,
  on_complete_command_response,
}
use difs.ManifestHandle.{ManifestHandle}
use difs.DeleteHandle.{DeleteHandle}
use difs.Handover.{handle_manifest_list_command, fetch_all, delete_all}
use difs.Handover.Picked.{Kept}
use difs.Handover.Moved.{sent_by, handle_of}
use difs.Handover.Complete.{in_share, hand_over_all}
use difs.Examples.Protocol.{tlv, names_json}
use difs.Examples.Libraries.{libs, memory_driver}

abbrev store : Storage libs
store = mongo_storage libs memory_driver

abbrev empty_db : Db libs memory_driver
empty_db = record { data_coll = λ k. none; manifest_coll = λ k. none }

empty_db-Keyed : Keyed libs memory_driver empty_db
empty_db-Keyed = record { data_unique = tt; manifests_unique = tt }

abbrev kept : Manifest
kept = record {
  name = codes "/f";
  hash = [];
  repos = record { name = codes "/n1"; start = pos 0; end = pos 2 } ∷ [];
  start_block_id = pos 0;
  end_block_id = pos 2;
}

abbrev full_db : Db libs memory_driver
full_db = (insert_manifest libs store kept empty_db).1

full_db-Keyed : Keyed libs memory_driver full_db
full_db-Keyed = record { data_unique = tt; manifests_unique = tt }

abbrev hash : Text
hash = hash_of libs.sha1 (codes "/f")

full_db-Kept : Kept libs store full_db hash
unfolding insert_manifest get_hash
full_db-Kept = record {
  manifest = kept;
  there =
      read_manifest-insert_manifest libs store (Keyed libs memory_driver)
        (mongo_storage-Contract libs memory_driver) kept empty_db empty_db-Keyed;
  under = refl;
  plain = refl;
  some_repo = omega arith;
}

abbrev new_node : KeySpaceHandle
new_node = record {
  repo_prefix = codes "/new";
  manager_prefix = codes "/manager";
  version_num = 0;
  version = [];
  key_space_file = [];
  manifest_list = [];
  start = pos 32;
  end = pos 127;
  from = codes "/old";
  to = [];
}

abbrev old_node : KeySpaceHandle
old_node = record new_node { repo_prefix = codes "/old" }

abbrev finder : ManifestHandle libs store
finder = record { interest_lifetime = 4000; processes = []; store = full_db }

abbrev deleter : DeleteHandle tlv libs store
deleter = record { processes = []; store = full_db }

abbrev hashes : List Text
hashes = hash ∷ []

no_zero : c_text (names_json.write_json hashes) ≡ names_json.write_json hashes
unfolding c_text hash_of hex_fixed hash_bytes
no_zero = refl

read_full_db :
    (x : Text)
    → read_manifest libs store x full_db ≡ (if text_eq hash x then found kept else missing)
unfolding read_manifest insert_manifest get_hash Mongo.read_manifest
read_full_db x =
    (mongo_storage-Contract libs memory_driver).read_manifest-insert_manifest kept x empty_db
      empty_db-Keyed
    ∙ rw (from_json-to_json libs.sha1 libs.json kept) refl

listed : (x : Text) → among x hashes ≡ is_there (read_manifest libs store x full_db)
listed x =
    rw (read_full_db x)
      (elim (Bool-cases (text_eq hash x)) [ inl same ↦ rw same refl | inr other ↦ rw other refl ])

all-Kept :
    (x : Text) → is_there (read_manifest libs store x full_db) ≡ true → Kept libs store full_db x
all-Kept x there = elim (Bool-cases (text_eq hash x)) [
  | inl same ↦ subst (Kept libs store full_db) ((text_eq_iff hash x).0 same) full_db-Kept
  | inr other ↦
      let none_there : true ≡ false = sym there ∙ ap is_there (read_full_db x) ∙ rw other refl in cc
]

-- The hash begins with `2f`.
abbrev rest_of_hash : Text
rest_of_hash = drop 2 hash

hand_over_all_example :
    let x = hex_fixed 2 47 ++ rest_of_hash in
    (content : Text) × (handle_manifest_list_command names_json (some hashes) old_node
      ≡ done old_node (replied_text content ∷ []))
    × (let asks = on_manifest_list_command_response names_json content new_node in
        let deletes = on_complete_command_response names_json (handle_of asks) in
        (new' : Db libs memory_driver) × (fetch_all libs store store tlv
            (sent_by asks)
            finder
            empty_db
          ≡ some new')
        × (read_manifest libs store x new' ≡ (
            if is_there (read_manifest libs store x full_db) && in_share 32 127 47
            then read_manifest libs store x full_db
            else read_manifest libs store x empty_db))
        × (read_manifest libs store x
              (delete_all libs store store tlv (sent_by deletes) deleter).store
            ≡ (if in_share 32 127 47 then missing else read_manifest libs store x full_db)))
hand_over_all_example =
    hand_over_all libs store store tlv (Keyed libs memory_driver)
      (mongo_storage-Contract libs memory_driver) (Keyed libs memory_driver)
      (mongo_storage-Contract libs memory_driver) names_json old_node new_node hashes finder deleter
      empty_db 32 127 47 rest_of_hash no_zero refl full_db-Keyed empty_db-Keyed listed all-Kept refl
      refl (omega arith) (omega arith) (omega arith) (omega arith)
