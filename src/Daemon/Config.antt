-- ===== src/Daemon/Config.antt =====
-- A configuration file of src/repo.cpp written out, section by section, and the `RepoConfig` that
-- it is for.
pub mod Sections
pub mod RoundTrip
pub mod Refused
use mathlib.Core.List.{append_assoc, append-nil}
use difs.Prelude.{
  Text, codes, text_eq, ℕ, ◌%◌, ◌^◌, ◌<◌, ◌≡◌, refl, ap, ◌∙◌, Bool, true, false, List, [], ◌∷◌,
  ◌++◌, Option, none, some, All, map, if◌then◌else◌, arith,
}
use difs.Prelude.Int.{pos, to_u64}
use difs.Daemon.Libraries.{is_key, first_section, PropertyTree, Names}
use difs.Daemon.{
  Parsed, ok, repo_error, ptree_error, name_error, ◌>>=◌, StorageMethod, storage_method_sqlite,
  storage_method_mongodb, disabled_subset_length, RepoConfig, text_at, name_at, data_option,
  read_data, endpoint_option, read_endpoint, read_endpoints, method_option, read_method, read_node,
  read_repo, parse_config, default_endpoint,
}

-- A node that joins a cluster through its manager, or a node of another type, as the manager.
pub data Role : Type 0 where
  member : Text → Text → Text → Role
  other : Text → Role

pub record Settings (P : PropertyTree) : Type 0 where
  pub prefixes : List Text
  pub subset : Option ℕ
  pub database : Option Text
  pub path : Text
  -- The section for the bulk insertion, with its two options.
  pub bulk : Option (Option Text × Option Text)
  pub packets : ℕ
  pub validator : P.Ptree
  pub node_prefix : Text
  pub prefix : Text
  pub role : Role

abbrev pub or_else {ℓ} : {A : Type ℓ} → A → Option A → A
or_else a none = a
or_else a (some b) = b

abbrev pub subset_of : Option ℕ → ℕ
subset_of none = disabled_subset_length
subset_of (some n) = n

abbrev pub endpoints_of : Option (Option Text × Option Text) → List (Text × Text)
endpoints_of none = []
endpoints_of (some (none, none)) = []
endpoints_of (some (some host, port)) = (host, or_else (codes "7376") port) ∷ []
endpoints_of (some (none, some port)) = (codes "localhost", port) ∷ []

abbrev pub method_of : Option Text → StorageMethod × Text
method_of none = (storage_method_sqlite, [])
method_of (some db) = (storage_method_mongodb, db)

abbrev pub type_of : Role → Text
type_of (member manager from to) = codes "node"
type_of (other type) = type

abbrev pub names_of : Role → Text × (Text × Text)
names_of (member manager from to) = (manager, (from, to))
names_of (other type) = ([], ([], []))

module _ (P : PropertyTree) where
  unfoldable pub config_of : Text → Settings P → RepoConfig P
  config_of config_path s = record {
    repo_config_path = config_path;
    storage_method = (method_of s.database).0;
    fs_db_path = s.path;
    mongodb_db = (method_of s.database).1;
    data_prefixes = s.prefixes;
    registration_subset = subset_of s.subset;
    tcp_bulk_insert_endpoints = endpoints_of s.bulk;
    n_max_packets = s.packets;
    validator_node = s.validator;
    cluster_node_prefix = s.node_prefix;
    cluster_prefix = s.prefix;
    cluster_type = type_of s.role;
    manager_prefix = (names_of s.role).0;
    from = (names_of s.role).1.0;
    to = (names_of s.role).1.1;
  }

  abbrev pub Sections : Type 0
  Sections = List (Text × P.Ptree)

  abbrev pub leaf : Text → P.Ptree
  leaf t = P.node t []

  abbrev pub prefix_sections : List Text → Sections
  prefix_sections [] = []
  prefix_sections (n ∷ ns) = (codes "prefix", leaf n) ∷ prefix_sections ns

  abbrev pub subset_sections : Option ℕ → Sections
  subset_sections none = []
  subset_sections (some n) = (codes "registration-subset", leaf (P.print_number n)) ∷ []

  abbrev pub text_sections : Text → Option Text → Sections
  text_sections key none = []
  text_sections key (some t) = (key, leaf t) ∷ []

  abbrev pub bulk_sections : Option (Option Text × Option Text) → Sections
  bulk_sections none = []
  bulk_sections (some (host, port)) =
      (
        codes "tcp_bulk_insert",
        P.node [] (text_sections (codes "host") host ++ text_sections (codes "port") port),
      )
      ∷ []

  abbrev pub database_sections : Option Text → Sections
  database_sections none = (codes "method", leaf (codes "fs")) ∷ []
  database_sections (some db) =
      (codes "method", leaf (codes "mongodb"))
      ∷ (codes "mongodb", P.node [] ((codes "db", leaf db) ∷ []))
      ∷ []

  abbrev pub role_sections : Role → Sections
  role_sections (member manager from to) =
      (codes "type", leaf (codes "node"))
      ∷ (codes "managerPrefix", leaf manager)
      ∷ (codes "from", leaf from)
      ∷ (codes "to", leaf to)
      ∷ []
  role_sections (other type) = (codes "type", leaf type) ∷ []

  abbrev pub data_tree : Settings P → P.Ptree
  data_tree s = P.node [] (prefix_sections s.prefixes ++ subset_sections s.subset)

  abbrev pub cluster_sections : Text → Text → Role → Sections
  cluster_sections node_prefix prefix role =
      (codes "nodePrefix", leaf node_prefix) ∷ (codes "prefix", leaf prefix) ∷ role_sections role

  abbrev pub cluster_tree : Settings P → P.Ptree
  cluster_tree s = P.node [] (cluster_sections s.node_prefix s.prefix s.role)

  abbrev pub storage_sections : Text → ℕ → Option Text → Sections
  storage_sections path packets database =
      (codes "fs", P.node [] ((codes "path", leaf path) ∷ []))
      ∷ (codes "max-packets", leaf (P.print_number packets))
      ∷ database_sections database

  abbrev pub storage_tree : Settings P → P.Ptree
  storage_tree s = P.node [] (storage_sections s.path s.packets s.database)

  abbrev pub repo_sections : Settings P → Sections
  repo_sections s =
      (codes "data", data_tree s)
      ∷ (codes "cluster", cluster_tree s)
      ∷ (codes "storage", storage_tree s)
      ∷ (codes "validator", s.validator)
      ∷ bulk_sections s.bulk

  abbrev pub repo_tree : Settings P → P.Ptree
  repo_tree s = P.node [] (repo_sections s)

  unfoldable pub document : Settings P → P.Ptree
  document s = P.node [] ((codes "repo", repo_tree s) ∷ [])
