-- ===== src/Daemon.antt =====
-- src/repo.cpp and src/repo.hpp: the configuration of a node, the storage that it names, and how a
-- node starts.
pub mod Libraries
pub mod Config
pub mod Joining
use difs.Prelude.{
  Text, codes, text_eq, ℕ, ◌+◌, ◌-◌, ◌^◌, ◌<◌, ◌≡◌, Bool, true, false, not, ◌&&◌, ◌==◌, List, [],
  ◌∷◌, ◌++◌, Option, none, some, is_nil, if◌then◌else◌,
}
use difs.Prelude.Int.{ℤ, pos, to_u64}
use difs.Daemon.Libraries.{is_key, first_section, PropertyTree, Names}
use difs.Json.{JsonCodec}
use difs.Tlv.{Tlv}
use difs.Command.Parameter.{RepoCommandParameter, empty, set_from, set_to, wire_encode}
use difs.KeySpace.{KeySpaceDoc}
use difs.KeySpace.Handle.{KeySpaceHandle, init_key_space_file}

-- What `parseConfig` returns, or the exception that it throws: `Repo::Error`, a `ptree_error`, or
-- that of a name.
pub data Parsed {ℓ} (A : Type ℓ) : Type ℓ where
  ok : A → Parsed A
  repo_error ptree_error name_error : Parsed A

infixl 5 ◌>>=◌
abbrev pub ◌>>=◌ {ℓ κ} : {A : Type ℓ} {B : Type κ} → Parsed A → (A → Parsed B) → Parsed B
ok a >>= f = f a
repo_error >>= f = repo_error
ptree_error >>= f = ptree_error
name_error >>= f = name_error

abbrev pub from_tree {ℓ} : {A : Type ℓ} → Option A → Parsed A
from_tree none = ptree_error
from_tree (some a) = ok a

abbrev pub from_name : Option Text → Parsed Text
from_name none = name_error
from_name (some n) = ok n

pub data StorageMethod : Type 0 where
  storage_method_sqlite storage_method_mongodb : StorageMethod

-- `DISABLED_SUBSET_LENGTH`.
abbrev pub disabled_subset_length : ℕ
disabled_subset_length = 2 ^ 64 - 1

-- A storage that is opened, with its path or the name of its database.
pub data Opened : Type 0 where
  opened_mongodb : Text → Opened
  opened_fs : Text → Opened

module _ (P : PropertyTree) where
  -- `storage_method` and `n_max_packets` are set before the record is returned. Nothing sets
  -- `repoPrefixes`.
  pub record RepoConfig : Type 0 where
    pub repo_config_path : Text
    pub storage_method : StorageMethod
    pub fs_db_path : Text
    pub mongodb_db : Text
    pub data_prefixes : List Text
    pub registration_subset : ℕ
    pub tcp_bulk_insert_endpoints : List (Text × Text)
    pub n_max_packets : ℕ
    pub validator_node : P.Ptree
    pub cluster_node_prefix : Text
    pub cluster_prefix : Text
    pub cluster_type : Text
    pub manager_prefix : Text
    pub from : Text
    pub to : Text

  -- `get<std::string>(path)`.
  abbrev pub text_at : Text → P.Ptree → Parsed Text
  text_at path t = do u ← from_tree (P.get_child path t); ok (P.get_string u)

  module _ (N : Names) where
    abbrev pub name_at : Text → P.Ptree → Parsed Text
    name_at path t = do uri ← text_at path t; from_name (N.make_name uri)

    -- An option of the section `data`, with the prefixes and the subset so far.
    unfoldable pub data_option : Text → P.Ptree → List Text × ℕ → Parsed (List Text × ℕ)
    data_option key t (prefixes, subset) =
        if text_eq key (codes "prefix")
        then (do n ← from_name (N.make_name (P.get_string t)); ok (prefixes ++ n ∷ [], subset))
        else if text_eq key (codes "registration-subset")
        then (do i ← from_tree (P.get_int t); ok (prefixes, to_u64 i))
        else repo_error

    unfoldable pub read_data : List (Text × P.Ptree) → List Text × ℕ → Parsed (List Text × ℕ)
    unfolding data_option
    read_data [] found = ok found
    read_data ((key, t) ∷ rest) found = do found' ← data_option key t found; read_data rest found'

    unfoldable pub endpoint_option : Text → P.Ptree → Text × Text → Parsed (Text × Text)
    endpoint_option key t (host, port) =
        if text_eq key (codes "host")
        then ok (P.get_string t, port)
        else if text_eq key (codes "port")
        then ok (host, P.get_string t)
        else repo_error

    unfoldable pub read_endpoint : List (Text × P.Ptree) → Text × Text → Parsed (Text × Text)
    unfolding endpoint_option
    read_endpoint [] e = ok e
    read_endpoint ((key, t) ∷ rest) e = do e' ← endpoint_option key t e; read_endpoint rest e'

    abbrev pub default_endpoint : Text × Text
    default_endpoint = (codes "localhost", codes "7376")

    -- The section may be missing; one with no option leaves the insertion off.
    unfoldable pub read_endpoints : Option P.Ptree → Parsed (List (Text × Text))
    unfolding read_endpoint
    read_endpoints none = ok []
    read_endpoints (some t) = do
      e ← read_endpoint (P.sections t) default_endpoint
      ok (if is_nil (P.sections t) then [] else e ∷ [])

    -- The method, and the database if it is MongoDB.
    unfoldable pub method_option : Text → P.Ptree → Parsed (StorageMethod × Text)
    method_option method storage_conf =
        if text_eq method (codes "fs")
        then ok (storage_method_sqlite, [])
        else if text_eq method (codes "mongodb")
        then (do db ← text_at (codes "mongodb.db") storage_conf; ok (storage_method_mongodb, db))
        else repo_error

    unfoldable pub read_method : P.Ptree → Parsed (StorageMethod × Text)
    unfolding method_option
    read_method storage_conf = do
      method ← text_at (codes "method") storage_conf
      method_option method storage_conf

    -- The manager and the two names of a node that is no manager.
    unfoldable pub read_node : Text → P.Ptree → Parsed (Text × (Text × Text))
    read_node cluster_type repo_conf =
        if text_eq cluster_type (codes "node")
        then (do
          manager ← name_at (codes "cluster.managerPrefix") repo_conf
          from ← text_at (codes "cluster.from") repo_conf
          to ← text_at (codes "cluster.to") repo_conf
          ok (manager, (from, to)))
        else ok ([], ([], []))

    unfoldable pub read_repo : Text → P.Ptree → Parsed RepoConfig
    unfolding read_data read_endpoints read_method read_node
    read_repo config_path repo_conf = do
      data_conf ← from_tree (P.get_child (codes "data") repo_conf)
      (prefixes, subset) ← read_data (P.sections data_conf) ([], disabled_subset_length)
      endpoints ← read_endpoints (P.get_child (codes "tcp_bulk_insert") repo_conf)
      storage_conf ← from_tree (P.get_child (codes "storage") repo_conf)
      (method, db) ← read_method storage_conf
      path ← text_at (codes "storage.fs.path") repo_conf
      validator ← from_tree (P.get_child (codes "validator") repo_conf)
      packets ← from_tree (P.get_child (codes "storage.max-packets") repo_conf)
      n ← from_tree (P.get_uint64 packets)
      node_prefix ← name_at (codes "cluster.nodePrefix") repo_conf
      prefix ← text_at (codes "cluster.prefix") repo_conf
      cluster_type ← text_at (codes "cluster.type") repo_conf
      (manager, (from, to)) ← read_node cluster_type repo_conf
      ok (record {
        repo_config_path = config_path;
        storage_method = method;
        fs_db_path = path;
        mongodb_db = db;
        data_prefixes = prefixes;
        registration_subset = subset;
        tcp_bulk_insert_endpoints = endpoints;
        n_max_packets = n;
        validator_node = validator;
        cluster_node_prefix = node_prefix;
        cluster_prefix = prefix;
        cluster_type = cluster_type;
        manager_prefix = manager;
        from = from;
        to = to;
      })

    abbrev pub read_tree : Text → Option P.Ptree → Parsed RepoConfig
    read_tree config_path none = repo_error
    read_tree config_path (some t) = do
      repo_conf ← from_tree (P.get_child (codes "repo") t)
      read_repo config_path repo_conf

    -- The file is `none` if it does not open.
    unfoldable pub parse_config : Text → Option Text → Parsed RepoConfig
    unfolding read_repo
    parse_config config_path none = repo_error
    parse_config config_path (some info) = read_tree config_path (P.read_info info)

    -- The members of `KeySpaceHandle` from the configuration; `unset` is what those for the range
    -- hold, which nothing sets.
    abbrev pub fresh_handle : ℤ × ℤ → RepoConfig → KeySpaceHandle
    fresh_handle unset c = record {
      repo_prefix = N.append c.cluster_node_prefix c.cluster_prefix;
      manager_prefix = c.manager_prefix;
      version_num = 0;
      version = [];
      key_space_file = [];
      manifest_list = [];
      start = unset.0;
      end = unset.1;
      from = c.from;
      to = [];
    }

    -- The constructor of `KeySpaceHandle`.
    unfoldable pub make_key_space_handle :
        JsonCodec KeySpaceDoc → ℤ × ℤ → RepoConfig → KeySpaceHandle
    unfolding init_key_space_file
    make_key_space_handle json unset c =
        let h = fresh_handle unset c in
        if text_eq c.cluster_type (codes "manager") then init_key_space_file json h else h

  unfoldable pub create_storage : RepoConfig → Opened
  create_storage c = elim c.storage_method [
    | storage_method_mongodb ↦ opened_mongodb c.mongodb_db
    | storage_method_sqlite ↦ opened_fs c.fs_db_path
  ]

  -- `addNode`: whom the command goes to, and the parameter in its name.
  unfoldable pub add_parameter : RepoConfig → RepoCommandParameter
  unfolding set_from set_to
  add_parameter c =
      set_from (record { type = 202; value = c.from })
        (set_to (record { type = 203; value = c.to }) empty)

  unfoldable pub add_node : Tlv → RepoConfig → Option (Text × Text)
  unfolding add_parameter wire_encode
  add_node T c =
      if text_eq c.cluster_type (codes "node")
      then some (c.manager_prefix, (wire_encode T (add_parameter c)).0)
      else none
