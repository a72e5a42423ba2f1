-- ===== src/Tests/Daemon.antt =====
-- The configurations of src/manager.conf and src/node.conf, and the two nodes that they start.
use difs.Prelude.{Text, codes, text_eq, ◌≡◌, refl, subst, [], ◌∷◌, none, some, arith}
use difs.Prelude.Int.{pos}
use difs.KeySpace.Ring.{Ring, IsPartition, add}
use difs.KeySpace.Handle.{KeySpaceHandle, c_text}
use difs.KeySpace.Served.{initial, Keeps}
use difs.Daemon.Config.Refused.{data_sections, parse_config-unknown}
use difs.Daemon.{RepoConfig, ok, repo_error, make_key_space_handle, parse_config}
use difs.Daemon.Config.{Settings, member, other, config_of, document}
use difs.Daemon.Config.RoundTrip.{IsWritable, parse_config-document}
use difs.Daemon.Joining.{start_all, Joins, joined, joins, start_all-IsPartition}
use difs.Examples.Tree.{trees, names}
use difs.Examples.Protocol.{tlv, key_space_json}

abbrev node_conf : Settings trees
node_conf = record {
  prefixes = codes "ndn:/data" ∷ [];
  subset = some 1;
  database = some (codes "difs");
  path = codes "/tmp/repo/";
  bulk = some (none, none);
  packets = 100000;
  validator = trees.node [] ((codes "trust-anchor", trees.node [] []) ∷ []);
  node_prefix = codes "/busan";
  prefix = codes "/difs";
  role = member (codes "/seoul/difs") (codes "/seoul/difs") (codes "/busan/difs");
}

abbrev manager_conf : Settings trees
manager_conf = record node_conf {
  database = none;
  node_prefix = codes "/seoul";
  role = other (codes "manager");
}

node_conf-IsWritable : IsWritable trees names node_conf
unfolding text_eq
node_conf-IsWritable = record {
  prefixes = (refl, tt);
  subset = λ n e. ground (arith, e);
  packets = omega arith;
  node_prefix = refl;
  manager = λ m from to e.
      let same : codes "/seoul/difs" ≡ m = cc in subst (λ n. names.make_name n ≡ some n) same refl;
  type = λ t e. cc;
}

abbrev conf_path : Text
conf_path = codes "node.conf"

parse_config-document_example :
    parse_config trees names conf_path (some (trees.write_info (document trees node_conf)))
    ≡ ok (config_of trees conf_path node_conf)
parse_config-document_example =
    parse_config-document trees names conf_path node_conf node_conf-IsWritable

abbrev manager : RepoConfig trees
manager = config_of trees conf_path manager_conf

abbrev node : RepoConfig trees
node = config_of trees conf_path node_conf

abbrev split_ring : Ring
split_ring =
    record { node = codes "/seoul/difs"; lo = 0; hi = 127 }
    ∷ record { node = codes "/busan/difs"; lo = 128; hi = 255 }
    ∷ []

node-Joins :
    Joins trees names tlv key_space_json (node ∷ []) (initial (codes "/seoul/difs")) split_ring
unfolding initial text_eq c_text config_of add
node-Joins =
    joins node [] (initial (codes "/seoul/difs")) split_ring split_ring refl
      (λ e. (omega arith, omega arith), λ e. cc) refl (joined split_ring)

start_all-IsPartition_example :
    (h : KeySpaceHandle) × (start_all trees names tlv key_space_json
        (node ∷ [])
        (make_key_space_handle trees names key_space_json (pos 0, pos 0) manager)
      ≡ some h)
    × Keeps key_space_json h split_ring
    × IsPartition split_ring
unfolding config_of text_eq
start_all-IsPartition_example =
    start_all-IsPartition trees names tlv key_space_json (pos 0, pos 0) manager (node ∷ [])
      split_ring refl node-Joins

abbrev unknown : Text
unknown = codes "subset"

parse_config-unknown_example :
    parse_config trees names conf_path (
      some (
        trees.write_info (
          trees.node [] (
            (
              codes "repo",
              trees.node [] (
                  (
                    codes "data",
                    trees.node []
                        (data_sections trees names (codes "/a" ∷ []) unknown (trees.node [] []) []),
                  )
                  ∷ []),
            )
            ∷ []))))
    ≡ repo_error
unfolding text_eq
parse_config-unknown_example =
    parse_config-unknown trees names conf_path (codes "/a" ∷ []) unknown (trees.node [] []) [] []
      (refl, tt) refl refl
