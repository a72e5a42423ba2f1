-- ===== src/Tests/Search.antt =====
-- Manifests that are stored and found, and the prefixes that are counted.
use difs.Prelude.{Text, codes, text_eq, ℕ, ◌-◌, ◌≡◌, refl, false, [], ◌∷◌, none, some, take, length}
use difs.Prelude.Int.{pos}
use difs.Prelude.Assoc.{lookup}
use difs.Manifest.{Manifest, hash_of, to_json}
use difs.Command.Parameter.{empty}
use difs.Command.Response
use difs.Storage.{Storage}
use difs.Storage.Mongo.{Db, mongo_storage}
use difs.Storage.Mongo.Refines.{Keyed, mongo_storage-Contract}
use difs.ManifestHandle.{ManifestHandle, done, replied_text, on_data_validated, handle_find_command}
use difs.ManifestHandle.Stored.{state_of}
use difs.ReadHandle.{find_prefix}
use difs.ReadHandle.Prefixes.{inserted, deleted, level, receive, receive-level}
use difs.WriteHandle
use difs.WriteHandle.{WriteHandle, process_at, asked_create}
use difs.WriteHandle.Creation.{write_manifest, handle_info_command}
use difs.WriteHandle.Created.{new_manifest, with_manifest, created}
use difs.Examples.Protocol.{tlv}
use difs.Examples.Libraries.{libs, memory_driver}

abbrev store : Storage libs
store = mongo_storage libs memory_driver

abbrev empty_db : Db libs memory_driver
empty_db = record { data_coll = λ k. none; manifest_coll = λ k. none }

empty_db-Keyed : Keyed libs memory_driver empty_db
empty_db-Keyed = record { data_unique = tt; manifests_unique = tt }

abbrev kept : Manifest
kept = record {
  name = codes "/a";
  hash = [];
  repos = record { name = codes "/n1"; start = pos 0; end = pos 2 } ∷ [];
  start_block_id = pos 0;
  end_block_id = pos 2;
}

abbrev waiting : ManifestHandle libs store
waiting = record {
  interest_lifetime = 4000;
  processes = (7, Response.empty) ∷ [];
  store = empty_db;
}

waits : lookup 7 waiting.processes ≡ some Response.empty
unfolding lookup
waits = refl

-- `getPrefix`, for this test the name without its last characters.
abbrev shorter : ℕ → Text → Text
shorter n name = take (length name - n) name

no_prefix : find_prefix (codes "/a") [] ≡ none
unfolding find_prefix
no_prefix = refl

receive-level_example :
    find_prefix (codes "/a") (
      receive shorter 1
        (inserted (codes "/a1") ∷ inserted (codes "/a2") ∷ deleted (codes "/a1#") ∷ [])
        [])
    ≡ some (pos 1)
unfolding level text_eq
receive-level_example =
    receive-level shorter 1 (codes "/a")
      (inserted (codes "/a1") ∷ inserted (codes "/a2") ∷ deleted (codes "/a1#") ∷ []) [] 0 no_prefix

abbrev writer : WriteHandle tlv libs store
writer = record {
  cluster_node_prefix = codes "/c";
  repo_prefix = codes "/c/repo";
  interest_lifetime = 4000;
  processes = [];
  store = empty_db;
}

created_example :
    let process = process_at tlv libs store 3 writer in
    let sent = to_json libs.sha1 libs.json (new_manifest tlv libs store some process) in
    let holds = state_of libs store (on_data_validated libs store sent 7 waiting) in
    let writing = with_manifest tlv libs store some 3 writer in
    (write_manifest tlv libs store some 3 writer
      ≡ WriteHandle.done writing (
          asked_create (hash_of libs.sha1 process.name) (record empty {
            name = some (47 ∷ hash_of libs.sha1 process.name);
            cluster_prefix = some (record { type = 211; value = codes "/c" });
            process_id = some 3;
          })
          ∷ []))
    × (handle_info_command tlv libs store (record empty { process_id = some 3 }) writing
        ≡ WriteHandle.done writing (WriteHandle.replied_text sent ∷ []))
    × (handle_find_command libs store false
          (record empty { name = some (47 ∷ hash_of libs.sha1 process.name) })
          holds
        ≡ done holds (replied_text sent ∷ []))
created_example =
    created tlv libs store some store (Keyed libs memory_driver)
      (mongo_storage-Contract libs memory_driver) 3 writer
      (hash_of libs.sha1 (process_at tlv libs store 3 writer).name)
      (record empty { process_id = some 3 }) 7 waiting Response.empty
      (record empty {
        name = some (47 ∷ hash_of libs.sha1 (process_at tlv libs store 3 writer).name);
      })
      refl refl empty_db-Keyed waits refl refl
