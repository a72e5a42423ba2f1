-- ===== src/Tests/Transfer.antt =====
-- A file of three packets that goes to a node and back.
use difs.Prelude.{
  Text, codes, text_eq, ℕ, ◌+◌, ◌≤◌, false, true, All, List, ◌≡◌, refl, [], ◌∷◌, ◌++◌, Option, none,
  some, arith,
}
use difs.Prelude.Int.{int_eq, to_i64, ℤ, pos, negsuc, to_i32, ◌-ℤ◌}
use difs.Prelude.Assoc.{lookup}
use difs.Command.Parameter
use difs.Command.Parameter.{RepoCommandParameter}
use difs.Storage.{Storage}
use difs.Storage.Mongo
use difs.Storage.Mongo.{Db, mongo_storage}
use difs.Storage.Mongo.Refines.{Keyed, mongo_storage-Contract}
use difs.Client.{
  Segment, chunk_size, last_data_size, read_chunk, prepare, put_file_prepare_next_data,
  file_manifest,
}
use difs.WriteHandle.{WriteHandle, ProcessInfo, on_segment_data, process_single_insert_command}
use difs.WriteHandle.Creation.{on_data_validated}
use difs.WriteHandle.Arrivals.{Storable, halts, feed, state_of}
use difs.ReadHandle.{ReadHandle}
use difs.Transfer.{Packets, fetch_file}
use difs.Transfer.Kept.{Apart, AllNew}
use difs.Transfer.Fetched.{arriving}
use difs.Transfer.Whole.{put-fetch_file}
use difs.Transfer.Timely.{Counts}
use difs.Transfer.Endless.{insertion-Counts}
use difs.Client.Commands
use difs.Client.Commands.{Difs}
use difs.Client.Retry
use difs.Storage.{hash_id, hash_bytes}
use difs.Manifest.Documents.{from_info_json-to_info_json}
use difs.Manifest.{Manifest, to_info_json}
use difs.Examples.Libraries.{Packet, libs, info_json, memory_driver}
use difs.Examples.Protocol.{tlv}

abbrev segment_name : Text → ℤ → Text
segment_name n (pos i) = n ++ 47 ∷ i ∷ []
segment_name n (negsuc i) = n ++ 45 ∷ i ∷ []

abbrev packets : Packets libs
packets = record {
  append_segment = segment_name;
  make_data = λ n s. (segment_name n s.number, s.content);
  get_content = λ d. d.1;
  get_name-make_data = λ n s. refl;
  get_content-make_data = λ n s. refl;
}

abbrev store : Storage libs
store = mongo_storage libs memory_driver

abbrev empty_db : Db libs memory_driver
empty_db = record { data_coll = λ k. none; manifest_coll = λ k. none }

abbrev file : Text
file = codes "hello"

abbrev node : WriteHandle tlv libs store
node = record {
  cluster_node_prefix = codes "/n";
  repo_prefix = codes "/n/difs";
  interest_lifetime = 4000;
  processes = [];
  store = empty_db;
}

abbrev reader : ReadHandle libs store
reader = record { processes = []; store = empty_db }

abbrev insertion : RepoCommandParameter
insertion = record Parameter.empty { name = some (codes "/f") }

abbrev arrival : Segment → ℕ
arrival s = 7

file-Apart : Apart libs store packets (codes "/f") (put_file_prepare_next_data file 2)
unfolding put_file_prepare_next_data prepare read_chunk last_data_size chunk_size text_eq to_i32
    ◌-ℤ◌
file-Apart = (((refl, refl), ((refl, refl), tt)), (((refl, refl), tt), (tt, tt)))

file-AllNew : AllNew libs store packets (codes "/f") (put_file_prepare_next_data file 2) empty_db
unfolding put_file_prepare_next_data prepare read_chunk last_data_size chunk_size Mongo.has to_i32
    ◌-ℤ◌
file-AllNew = (refl, (refl, (refl, tt)))

abbrev owner : Text → Option Text
owner hash = some (codes "/m")

abbrev client_manifest : Manifest
client_manifest = file_manifest (codes "/f") file 2

abbrev info : Text
info = to_info_json libs.sha1 info_json client_manifest

put-fetch_file_example :
    let asked =
      state_of tlv libs store (process_single_insert_command tlv libs store 9 insertion node) in
    let told =
      state_of tlv libs store
        (on_data_validated tlv libs store owner info_json 5 none info 9 asked) in
    let after =
      feed tlv libs store
        (arriving libs store packets (codes "/f") tlv arrival (put_file_prepare_next_data file 2))
        9
        told in
    fetch_file libs store packets (codes "/f") 3 0 (record reader { store = after.store })
    ≡ some file
unfolding lookup
put-fetch_file_example =
    put-fetch_file libs store packets (codes "/f") tlv owner info_json (Keyed libs memory_driver)
      (mongo_storage-Contract libs memory_driver) arrival 5 9 none insertion node reader file 2
      (omega arith) (omega arith) (omega arith) refl (λ s. omega arith) (λ x. (codes "/m", refl))
      (record { data_unique = tt; manifests_unique = tt }) file-Apart file-AllNew

abbrev asked : WriteHandle tlv libs store
asked = state_of tlv libs store (process_single_insert_command tlv libs store 9 insertion node)

abbrev told : WriteHandle tlv libs store
told =
    state_of tlv libs store (on_data_validated tlv libs store owner info_json 5 none info 9 asked)

abbrev two_packets : List (ℕ × Packet)
two_packets = (7, (codes "/f/0", codes "he")) ∷ (8, (codes "/f/1", codes "ll")) ∷ []

two_packets-InTime :
    All (λ (x : ℕ × Packet). (x.0 ≤ 5 + 10000) × Storable tlv libs store x.1) two_packets
unfolding int_eq hash_id to_i64 hash_bytes
two_packets-InTime = ((omega arith, refl), ((omega arith, refl), tt))

insertion-Counts_example :
    let node' = feed tlv libs store two_packets 9 told in
    let tardy = on_segment_data tlv libs store 10006 (codes "/f/2", codes "o") 9 node' in
    Counts tlv libs store 9 10005 2 node'
    × (w : ProcessInfo) × (lookup 9 (state_of tlv libs store tardy).processes ≡ some w)
    × (w.response.code ≡ some 405)
    × (halts tlv libs store tardy ≡ true)
unfolding lookup
insertion-Counts_example =
    insertion-Counts tlv libs store (Keyed libs memory_driver)
      (mongo_storage-Contract libs memory_driver) owner info_json 5 9 10006 none info _ insertion
      node two_packets (codes "/f/2", codes "o") refl
      (from_info_json-to_info_json libs.sha1 info_json client_manifest) (λ x. (codes "/m", refl))
      two_packets-InTime (omega arith) (omega arith)

abbrev of_process : RepoCommandParameter
of_process = record Parameter.empty { name = some (codes "/f"); process_id = some 9 }

abbrev client : Difs
client = record {
  common_name = codes "/c";
  repo_prefix = codes "/c/repo";
  node_prefix = none;
  forwarding_hint = none;
  interest_lifetime = 4000;
  has_timeout = false;
  time_out = 0;
  timeout = 0;
  block_size = 2;
  identity_for_command = [];
  process_id = 0;
  check_period = 1000;
  current_segment_no = 0;
  ndn_name = [];
  data_prefix = [];
  retry_count = pos 1;
  manifest = [];
  packets = [];
}
