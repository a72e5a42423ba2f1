-- ===== src/Tests/KeySpace.antt =====
-- The key space on concrete commands.
use difs.Prelude.{
  Text, codes, text_eq, ◌≡◌, refl, subst, inl, inr, List, [], ◌∷◌, ◌++◌, some, arith, length,
}
use difs.Prelude.Int.{pos}
use difs.Prelude.Hex.{hex_fixed, stoi_hex, scan}
use difs.Command.Parameter.{RepoCommandParameter, empty}
use difs.KeySpace.{KeySpaceDoc, initial_doc, storage_of, delete_node}
use difs.KeySpace.Ring.{
  Interval, Ring, IsPartition, Splits, Adjoins, Beside, Beside-Once, add, delete, remove, owners,
  holds,
}
use difs.KeySpace.Refines.{Represents}
use difs.KeySpace.Takeover.{delete_node-delete}
use difs.KeySpace.Lookup.{IsPadding, storage_of-IsPartition}
use difs.KeySpace.Handle.{
  KeySpaceHandle, done, replied_text, asked_coordination, asked_manifest, c_text,
  init_key_space_file, handle_fetch_command, on_fetch_command_response, for_names,
}
use difs.KeySpace.Served.{
  add_request, delete_request, adds, deletes, Steps, stays, goes, initial, Keeps, serve_all,
  serve_all-IsPartition,
}
use difs.KeySpace.Moves.{for_names-count}
use difs.KeySpace.Sync.{range_of, fetched}
use difs.Examples.Protocol.{key_space_json, names_json}

abbrev tail : Text → Text
tail [] = []
tail (c ∷ t) = t

abbrev manager : Text
manager = codes "/m"

abbrev node : Text
node = codes "/n"

abbrev names : RepoCommandParameter
names = record empty {
  from = some (record { type = 202; value = manager });
  to = some (record { type = 203; value = node });
}

abbrev handle : KeySpaceHandle
handle = record {
  repo_prefix = manager;
  manager_prefix = manager;
  version_num = 0;
  version = [];
  key_space_file = [];
  manifest_list = [];
  start = pos 0;
  end = pos 255;
  from = [];
  to = [];
}

abbrev whole_ring : Ring
whole_ring = record { node = manager; lo = 0; hi = 255 } ∷ []

abbrev split_ring : Ring
split_ring =
    record { node = manager; lo = 0; hi = 127 } ∷ record { node = node; lo = 128; hi = 255 } ∷ []

abbrev joined_ring : Ring
joined_ring = record { node = node; lo = 0; hi = 255 } ∷ []

can_split : Splits manager whole_ring
unfolding text_eq
can_split = (λ e. (omega arith, omega arith), λ e. cc)

splits : add manager node whole_ring ≡ some split_ring
unfolding add text_eq
splits = refl

beside :
    Beside
      (record { node = manager; lo = 0; hi = 127 })
      node
      (record { node = node; lo = 128; hi = 255 } ∷ [])
unfolding text_eq
beside = (λ e. ((omega arith, omega arith, inl refl), tt), λ e. cc)

can_join : Adjoins manager node split_ring
unfolding remove text_eq
can_join i s e =
    let left : Interval × Ring = (
      record { node = manager; lo = 0; hi = 127 },
      record { node = node; lo = 128; hi = 255 } ∷ [],
    ) in
    let same : left ≡ (i, s) = cc in
    subst (λ (t : Interval × Ring). Beside t.0 node t.1) same beside

joins : delete manager node split_ring ≡ some joined_ring
unfolding delete text_eq
joins = refl

-- A node is added, and takes the manager's part over.
steps :
    Steps
      (add_request names ∷ delete_request (pos 0, pos 0) names ∷ [])
      (initial manager)
      joined_ring
unfolding c_text initial
steps =
    goes (add_request names) (delete_request (pos 0, pos 0) names ∷ []) whole_ring split_ring
      joined_ring
      (adds names (record { type = 202; value = manager }) (record { type = 203; value = node })
        whole_ring split_ring refl refl can_split splits)
      (goes (delete_request (pos 0, pos 0) names) [] split_ring joined_ring joined_ring
        (deletes (pos 0, pos 0) names (record { type = 202; value = manager })
          (record { type = 203; value = node }) split_ring joined_ring refl refl can_join joins)
        (stays joined_ring))

serve_all-IsPartition_example :
    (h : KeySpaceHandle) × (serve_all key_space_json
        (add_request names ∷ delete_request (pos 0, pos 0) names ∷ [])
        (init_key_space_file key_space_json handle)
      ≡ some h)
    × Keeps key_space_json h joined_ring
    × IsPartition joined_ring
serve_all-IsPartition_example =
    serve_all-IsPartition key_space_json
      (add_request names ∷ delete_request (pos 0, pos 0) names ∷ []) handle joined_ring steps

abbrev split_doc : KeySpaceDoc
split_doc =
    record { node = manager; start = codes "0x00"; end = codes "0x7f" }
    ∷ record { node = node; start = codes "0x80"; end = codes "0xff" }
    ∷ []

represents : Represents split_doc split_ring
unfolding stoi_hex scan
represents = (
  (refl, refl, refl, omega arith, omega arith),
  ((refl, refl, refl, omega arith, omega arith), tt),
)

Represents-initial : Represents (initial_doc manager) whole_ring
unfolding stoi_hex scan initial_doc
Represents-initial = ((refl, refl, refl, omega arith, omega arith), tt)

delete_node-delete_example :
    (out : KeySpaceDoc) × (delete_node manager node (pos 0, pos 0) split_doc ≡ some out)
    × Represents out joined_ring
delete_node-delete_example =
    delete_node-delete manager node (pos 0, pos 0) split_doc split_ring joined_ring represents joins
      (λ i t removed. Beside-Once i node t (can_join i t removed))

split_ring-IsPartition : IsPartition split_ring
unfolding owners holds
split_ring-IsPartition b h = ground arith

-- `%02x` of a string of one character or more.
abbrev pad : Text → Text
pad (a ∷ []) = 48 ∷ a ∷ []
pad t = t

pad-IsPadding : IsPadding pad
pad-IsPadding a b = (refl, refl)

storage_of-IsPartition_example :
    storage_of pad (hex_fixed 2 200 ++ codes "1d") split_doc ≡ some node
unfolding holds
storage_of-IsPartition_example =
    storage_of-IsPartition pad 200 (codes "1d") split_doc split_ring
      (record { node = node; lo = 128; hi = 255 }) pad-IsPadding (omega arith) represents
      ((omega arith, omega arith), ((omega arith, omega arith), tt)) split_ring-IsPartition
      (inr (inl refl)) refl

-- A hash that starts with 1f, and a range that has the byte 1f and the digit 1.
for_names-count_example :
    length
      (for_names (asked_manifest manager) (pos 0) (pos 127) ((hex_fixed 2 31 ++ codes "00") ∷ []))
    ≡ 2
for_names-count_example =
    for_names-count (asked_manifest manager) 31 0 127 (codes "00") (omega arith) (omega arith)
      (omega arith)

abbrev two_names : List Text
two_names = codes "1f00" ∷ codes "e0a1" ∷ []

no_zero_list : c_text (names_json.write_json two_names) ≡ names_json.write_json two_names
unfolding c_text
no_zero_list = refl

abbrev listed : KeySpaceHandle
listed = record handle { manifest_list = c_text (names_json.write_json two_names) }

abbrev served : KeySpaceHandle
served = record handle {
  key_space_file = key_space_json.write_json split_doc;
  version = codes "v1";
}

no_zero_file : c_text served.key_space_file ≡ served.key_space_file
unfolding c_text
no_zero_file = refl

found_range : range_of node split_ring ≡ some (record { node = node; lo = 128; hi = 255 })
unfolding range_of text_eq
found_range = refl

abbrev joining : KeySpaceHandle
joining = record handle { repo_prefix = node }

fetched_example :
    (handle_fetch_command key_space_json served.version served
      ≡ done served
          (replied_text served.key_space_file ∷ asked_coordination served.to served.from ∷ []))
    × (on_fetch_command_response key_space_json served.version served.key_space_file joining
        ≡ done
            (record joining {
              version = served.version;
              key_space_file = served.key_space_file;
              start = pos 128;
              end = pos 255;
            })
            [])
fetched_example =
    fetched key_space_json served joining split_ring (record { node = node; lo = 128; hi = 255 })
      123 (tail served.key_space_file) (split_doc, key_space_json.read-write split_doc, represents)
      refl no_zero_file found_range
