-- ===== src/Tests/Handles.antt =====
-- Deletions and insertions on concrete stores.
use difs.Prelude.{
  Text, codes, text_eq, ℕ, ◌-◌, ◌^◌, ◌≡◌, refl, List, [], ◌∷◌, ◌++◌, none, some, arith, drop,
}
use difs.Prelude.Int.{pos, int_eq, to_i64}
use difs.Manifest.{Manifest, get_hash}
use difs.Command.Parameter.{RepoCommandParameter, empty}
use difs.Storage.{Storage, missing, found, hash_id, hash_bytes}
use difs.Storage.RepoStorage.{read_data, read_manifest, insert_manifest}
use difs.Storage.RepoStorage.Laws.{read_manifest-insert_manifest}
use difs.Storage.Mongo.{Db, mongo_storage}
use difs.Storage.Mongo.Refines.{Keyed, mongo_storage-Contract}
use difs.DeleteHandle.{DeleteHandle, done, replied, handle_delete_data_command, some_or}
use difs.DeleteHandle.Segments.{
  swept, covers, handle_delete_data_command_lem, handle_delete_data_command-endless, read-swept,
}
use difs.DeleteHandle.Responses.{Response, asks, left}
use difs.DeleteHandle.Replies.{Success}
use difs.Command.Response.{RepoCommandResponse}
use difs.DeleteHandle.Process.{whole, whole_lem}
use difs.DeleteHandle.Refused.{refusal, whole-refused}
use difs.Prelude.Assoc.{lookup}
use difs.WriteHandle.{WriteHandle, process_segmented_insert_command}
use difs.WriteHandle.Arrivals.{state_of, feed, status}
use difs.WriteHandle.Segments.{insertion-status}
use difs.Examples.Libraries.{Packet, libs, memory_driver}
use difs.Examples.Protocol.{tlv}

abbrev store : Storage libs
store = mongo_storage libs memory_driver

abbrev empty_db : Db libs memory_driver
empty_db = record { data_coll = λ k. none; manifest_coll = λ k. none }

empty_db-Keyed : Keyed libs memory_driver empty_db
empty_db-Keyed = record { data_unique = tt; manifests_unique = tt }

-- `appendSegment`, with the number as one character.
abbrev append_segment : Text → ℕ → Text
append_segment name i = name ++ 47 ∷ i ∷ []

abbrev deleter : DeleteHandle tlv libs store
deleter = record { processes = []; store = empty_db }

abbrev range : ℕ → RepoCommandParameter
range end = record empty {
  name = some (codes "/a");
  start_block_id = some 2;
  end_block_id = some end;
  process_id = some 9;
}

handle_delete_data_command_lem_example :
    (r : RepoCommandResponse) × (handle_delete_data_command tlv libs store append_segment 5
        (codes "/i")
        (range 4)
        deleter
      ≡ some (
          done
            (record deleter { store = swept libs store append_segment 3 (codes "/a") 2 empty_db })
            (replied (codes "/i") r ∷ [])))
    × Success 9 3 r
handle_delete_data_command_lem_example =
    handle_delete_data_command_lem libs store append_segment tlv (codes "/i") (range 4) 9 2 4
      deleter refl refl refl (omega arith) (omega arith)

handle_delete_data_command-endless_example :
    handle_delete_data_command tlv libs store append_segment 1000
      (codes "/i")
      (range (2 ^ 64 - 1))
      deleter
    ≡ none
handle_delete_data_command-endless_example =
    handle_delete_data_command-endless libs store append_segment tlv 1000 (codes "/i")
      (range (2 ^ 64 - 1)) 2 deleter refl refl (omega arith)

read-swept_example :
    read_data libs store
      (codes "/a" ++ 47 ∷ 3 ∷ [])
      (swept libs store append_segment 3 (codes "/a") 2 empty_db)
    ≡ missing
unfolding covers text_eq
read-swept_example =
    read-swept libs store append_segment (Keyed libs memory_driver)
      (mongo_storage-Contract libs memory_driver) 3 (codes "/a") 2 (codes "/a" ++ 47 ∷ 3 ∷ [])
      empty_db empty_db-Keyed

abbrev kept : Manifest
kept = record {
  name = codes "/a";
  hash = [];
  repos =
      record { name = codes "/n1"; start = pos 0; end = pos 2 }
      ∷ record { name = codes "/n2"; start = pos 3; end = pos 5 }
      ∷ [];
  start_block_id = pos 0;
  end_block_id = pos 5;
}

abbrev manifest_hash : Text
manifest_hash = get_hash libs.sha1 kept

abbrev keeping : DeleteHandle tlv libs store
keeping = record { processes = []; store = (insert_manifest libs store kept empty_db).1 }

abbrev by_hash : RepoCommandParameter
by_hash = record empty { name = some (47 ∷ manifest_hash); process_id = some 4 }

is_kept : read_manifest libs store manifest_hash keeping.store ≡ found kept
is_kept =
    read_manifest-insert_manifest libs store (Keyed libs memory_driver)
      (mongo_storage-Contract libs memory_driver) kept empty_db empty_db-Keyed

abbrev accepted : List Response
accepted =
    record { interest = codes "/i1"; code = 200; fresh = 12 }
    ∷ record { interest = codes "/i2"; code = 200; fresh = 13 }
    ∷ []

whole_lem_example :
    (r : RepoCommandResponse) × (whole tlv libs store (codes "/i") by_hash 7 11 accepted keeping
      ≡ some (
        left tlv libs store 7 manifest_hash keeping,
        asks (codes "/a") 7 (11 ∷ 12 ∷ 13 ∷ []) kept.repos ++ replied (codes "/i") r ∷ [],
      ))
    × Success 4 1 r
whole_lem_example =
    whole_lem tlv libs store (codes "/i") by_hash 7 4 11 accepted keeping kept refl is_kept
      (omega arith) refl (omega arith, (omega arith, tt))

abbrev writer : WriteHandle tlv libs store
writer = record {
  cluster_node_prefix = codes "/c";
  repo_prefix = codes "/c/repo";
  interest_lifetime = 4000;
  processes = [];
  store = empty_db;
}

abbrev segment_1 : Packet
segment_1 = (codes "/a/1", codes "x")

abbrev segment_2 : Packet
segment_2 = (codes "/a/2", codes "y")

insertion-status_example :
    status tlv libs store 7 (
      feed tlv libs store ((100, segment_1) ∷ (200, segment_2) ∷ []) 7 (
        state_of tlv libs store
          (process_segmented_insert_command tlv libs store 50 0 7 (range 3) writer)))
    ≡ (some 200, some 2)
unfolding int_eq hash_id to_i64 hash_bytes
insertion-status_example =
    insertion-status tlv libs store (Keyed libs memory_driver)
      (mongo_storage-Contract libs memory_driver) 50 0 7 2 3 (range 3) writer (100, segment_1)
      ((200, segment_2) ∷ []) refl refl (omega arith) (omega arith) (omega arith) (refl, (refl, tt))

abbrev refusing : Response
refusing = record { interest = codes "/i2"; code = 405; fresh = 13 }

whole-refused_example :
    (h : DeleteHandle tlv libs store) × (whole tlv libs store
        (codes "/i")
        by_hash
        7
        11
        (record { interest = codes "/i1"; code = 200; fresh = 12 } ∷ refusing ∷ [])
        keeping
      ≡ some (
        h,
        asks (codes "/a") 7 (11 ∷ 12 ∷ []) kept.repos ++ refusal tlv libs store refusing ∷ [],
      ))
    × (h.store ≡ keeping.store)
    × (lookup 7 h.processes
        ≡ some (record {
          interest = codes "/i";
          repos = drop 2 kept.repos;
          name = codes "/a";
          hash = drop 1 (some_or [] by_hash.name);
        }))
whole-refused_example =
    whole-refused tlv libs store (codes "/i") by_hash 7 11
      (record { interest = codes "/i1"; code = 200; fresh = 12 } ∷ []) refusing keeping kept is_kept
      (omega arith) (omega arith, tt) (omega arith)
