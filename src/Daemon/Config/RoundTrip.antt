-- ===== src/Daemon/Config/RoundTrip.antt =====
-- `parseConfig` of src/repo.cpp on a file that is written out.
use difs.Prelude.{Text, codes, text_eq, ℕ, ◌^◌, ◌<◌, ◌≡◌, refl, ◌∙◌, false, [], ◌∷◌, some, All}
use difs.Daemon.Libraries.{is_key, first_section, PropertyTree, Names}
use difs.Daemon.{ok, read_node, read_repo, parse_config, text_at}
use difs.Daemon.Config.{
  Role, member, other, Settings, names_of, type_of, config_of, document, leaf, cluster_sections,
  storage_sections, repo_sections, repo_tree, storage_tree,
}
use difs.Daemon.Config.Sections.{
  child, text_at-child, child-path, text_at-path, read_data-document, read_endpoints-document,
  read_method-document, at_cluster,
}

module _ (P : PropertyTree) (N : Names) where
  -- The names are such that ndn-cxx reads them as they are, the numbers fit, and a role that is no
  -- member has another type.
  pub record IsWritable (s : Settings P) : Type 0 where
    pub prefixes : All (λ n. N.make_name n ≡ some n) s.prefixes
    pub subset : (n : ℕ) → s.subset ≡ some n → n < 2 ^ 31
    pub packets : s.packets < 2 ^ 64
    pub node_prefix : N.make_name s.node_prefix ≡ some s.node_prefix
    pub manager : (m from to : Text) → s.role ≡ member m from to → N.make_name m ≡ some m
    pub type : (t : Text) → s.role ≡ other t → text_eq t (codes "node") ≡ false

  at_type :
      (s : Settings P)
      → first_section (codes "type") (cluster_sections P s.node_prefix s.prefix s.role)
        ≡ some (leaf P (type_of s.role))
  unfolding text_eq
  at_type s = split s.role
    where
      split :
          (r : Role)
          → first_section (codes "type") (cluster_sections P s.node_prefix s.prefix r)
            ≡ some (leaf P (type_of r))
      split (member m from to) = refl
      split (other t) = refl

  read_node-document :
      (s : Settings P)
      → IsWritable s
      → read_node P N (type_of s.role) (repo_tree P s) ≡ ok (names_of s.role)
  unfolding read_node text_eq is_key
  read_node-document s w = split s.role refl
    where
      split : (r : Role) → s.role ≡ r → read_node P N (type_of r) (repo_tree P s) ≡ ok (names_of r)
      split (member m from to) e =
          rw
            (
              at_cluster P N s (codes "managerPrefix") m refl (rw e refl),
              w.manager m from to e,
              at_cluster P N s (codes "from") from refl (rw e refl),
              at_cluster P N s (codes "to") to refl (rw e refl),
            )
            refl
      split (other t) e = rw (w.type t e) refl

  path_stands : (s : Settings P) → text_at P (codes "storage.fs.path") (repo_tree P s) ≡ ok s.path
  unfolding text_eq is_key
  path_stands s =
      let fs = (codes "path", leaf P s.path) ∷ [] in
      let l = storage_sections P s.path s.packets s.database in
      text_at-path P (codes "storage") (codes "fs.path") s.path (repo_sections P s) l refl refl (
        text_at-path P (codes "fs") (codes "path") s.path l fs refl refl
          (text_at-child P (codes "path") s.path fs refl refl))

  packets_stand :
      (s : Settings P)
      → P.get_child (codes "storage.max-packets") (repo_tree P s)
        ≡ some (leaf P (P.print_number s.packets))
  unfolding text_eq is_key
  packets_stand s =
      child-path P (codes "storage") (codes "max-packets") (storage_tree P s) (repo_sections P s)
        refl refl
      ∙ child P (codes "max-packets") [] (storage_sections P s.path s.packets s.database) refl

  read_repo-document :
      (path : Text) (s : Settings P)
      → IsWritable s
      → read_repo P N path (repo_tree P s) ≡ ok (config_of P path s)
  unfolding read_repo text_eq is_key config_of
  read_repo-document path s w =
      let l = repo_sections P s in
      rw
        (
          child P (codes "data") [] l refl,
          read_data-document P N s w.prefixes w.subset,
          child P (codes "tcp_bulk_insert") [] l refl,
          read_endpoints-document P N s.bulk,
          child P (codes "storage") [] l refl,
          read_method-document P N s.path s.packets s.database,
        )
        (rw
          (
            path_stands s,
            child P (codes "validator") [] l refl,
            packets_stand s,
            P.get_uint64-print_number s.packets [] w.packets,
          )
          (rw
            (
              at_cluster P N s (codes "nodePrefix") s.node_prefix refl refl,
              w.node_prefix,
              at_cluster P N s (codes "prefix") s.prefix refl refl,
              at_cluster P N s (codes "type") (type_of s.role) refl (at_type s),
              read_node-document s w,
            )
            refl))

  -- A configuration file that is written out for settings that can be written is parsed without an
  -- exception, into the configuration that the settings describe: every prefix, in order; the
  -- subset, or the largest number where there is none; the storage that was chosen; the endpoint
  -- for the bulk insertion, with what is missing filled in, and none where the section is empty;
  -- and the manager and the two names for a member only.
  pub parse_config-document :
      (path : Text) (s : Settings P)
      → IsWritable s
      → parse_config P N path (some (P.write_info (document P s))) ≡ ok (config_of P path s)
  unfolding parse_config document text_eq is_key
  parse_config-document path s w =
      rw
        (
          P.read-write (document P s),
          child P (codes "repo") [] ((codes "repo", repo_tree P s) ∷ []) refl,
        )
        (read_repo-document path s w)
