-- ===== src/Tests/Commands.antt =====
-- The commands of the client, on a client and a node with small values.
use difs.Prelude.{
  Text, codes, ℕ, ◌<◌, ◌≡◌, ◌≢◌, refl, inl, true, false, List, [], ◌∷◌, ◌++◌, none, some, length,
  length-append, arith, ◌≤◌,
}
use difs.Prelude.Int.{pos, int_lt}
use difs.Manifest.{Manifest, to_json}
use difs.Storage.{Storage}
use difs.Storage.Mongo.{Db, mongo_storage}
use difs.Storage.Mongo.Refines.{Keyed}
use difs.WriteHandle.{WriteHandle}
use difs.Client.Commands.{
  Difs, done, expressed, fetched, Request, delete, get, insert, check, max_retry, delete_file,
  get_key_space_info, get_info_request,
}
use difs.Client.Callbacks.{
  some_or, on_timeout, Event, timed_out, registered, on_get_command_response,
}
use difs.Client.Retry.{
  sent_by, budget, resends, resends-le-budget, retry-other_file, get_key_space_info-retry,
}
use difs.Client.Get.{on_get_command_response-to_json}
use difs.Examples.Protocol.{tlv}
use difs.Examples.Libraries.{libs, memory_driver, words, manifest_json}

abbrev client : Difs
client = record {
  common_name = codes "/c";
  repo_prefix = codes "/c/repo";
  node_prefix = none;
  forwarding_hint = none;
  interest_lifetime = 4000;
  has_timeout = false;
  time_out = 0;
  timeout = 0;
  block_size = 2;
  identity_for_command = [];
  process_id = 0;
  check_period = 1000;
  current_segment_no = 0;
  ndn_name = [];
  data_prefix = [];
  retry_count = pos 1;
  manifest = [];
  packets = [];
}

abbrev append_segment : Text → ℕ → Text
append_segment name i = name ++ 47 ∷ i ∷ []

abbrev failures : List Event
failures =
    registered
    ∷ timed_out insert []
    ∷ timed_out check []
    ∷ timed_out check []
    ∷ timed_out get []
    ∷ []

resends-le-budget_example : resends append_segment manifest_json 0 failures client ≤ budget client
resends-le-budget_example = resends-le-budget append_segment manifest_json 0 failures client

retries_left : int_lt client.retry_count max_retry ≡ true
unfolding int_lt
retries_left = refl

-- A name for each interest: the prefix, and the name in the parameter.
abbrev name_of : Request → Text
name_of r = r.prefix ++ 47 ∷ some_or [] r.parameter.name

name_of-longer :
    (r : Request) (n : Text) → r.parameter.name ≡ some n → length n < length (name_of r)
name_of-longer r n e = rw (e, length-append r.prefix (47 ∷ n)) (omega arith)

delete_file-name : (delete_file (codes "/f") client).parameter.name ≡ some (codes "/f")
unfolding delete_file
delete_file-name = refl

delete_file-expects : (delete_file (codes "/f") client).expects ≡ delete
unfolding delete_file
delete_file-expects = refl

retry-other_file_example :
    let r = delete_file (codes "/f") client in
    (r' : Request) × (sent_by (on_timeout r.expects (name_of r) client) ≡ expressed r' ∷ [])
    × (r'.expects ≡ r.expects)
    × (r'.parameter.name ≡ some (name_of r))
    × (r'.parameter.name ≢ some (codes "/f"))
retry-other_file_example =
    retry-other_file name_of name_of-longer (delete_file (codes "/f") client) (codes "/f") client
      delete_file-name (inl delete_file-expects) retries_left

get_key_space_info-retry_example :
    (sent_by (on_timeout (get_key_space_info client).expects [] client)
      ≡ expressed (get_info_request client) ∷ [])
    × ((get_info_request client).command ≢ (get_key_space_info client).command)
get_key_space_info-retry_example = get_key_space_info-retry [] client retries_left

abbrev store : Storage libs
store = mongo_storage libs memory_driver

abbrev empty_db : Db libs memory_driver
empty_db = record { data_coll = λ k. none; manifest_coll = λ k. none }

empty_db-Keyed : Keyed libs memory_driver empty_db
empty_db-Keyed = record { data_unique = tt; manifests_unique = tt }

abbrev writer : WriteHandle tlv libs store
writer = record {
  cluster_node_prefix = codes "/c";
  repo_prefix = codes "/c/repo";
  interest_lifetime = 4000;
  processes = [];
  store = empty_db;
}

abbrev kept : Manifest
kept = record {
  name = codes "/f";
  hash = [];
  repos = record { name = codes "/n1"; start = pos 0; end = pos 2 } ∷ [];
  start_block_id = pos 0;
  end_block_id = pos 2;
}

on_get_command_response-to_json_example :
    on_get_command_response append_segment manifest_json (to_json words manifest_json kept) client
    ≡ done
        (record client { manifest = to_json words manifest_json kept })
        (fetched (append_segment (codes "/f") 0) (codes "/n1") ∷ [])
on_get_command_response-to_json_example =
    on_get_command_response-to_json append_segment words manifest_json kept client
