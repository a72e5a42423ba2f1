-- ===== src/Daemon/Config/Sections.antt =====
-- What the loops and the look-ups of `parseConfig` find in a file that is written out.
use mathlib.Core.List.{append_assoc, append-nil}
use difs.Prelude.{
  Text, codes, text_eq, ℕ, ◌%◌, ◌^◌, ◌<◌, ◌≡◌, refl, ap, ◌∙◌, true, List, [], ◌∷◌, ◌++◌, Option,
  none, some, All, arith,
}
use difs.Prelude.Int.{to_u64}
use difs.Daemon.Libraries.{is_key, first_section, PropertyTree, Names}
use difs.Daemon.{
  ok, disabled_subset_length, text_at, data_option, read_data, endpoint_option, read_endpoint,
  read_endpoints, method_option, read_method,
}
use difs.Daemon.Config.{
  Settings, subset_of, endpoints_of, method_of, Sections, leaf, prefix_sections, subset_sections,
  bulk_sections, data_tree, cluster_sections, storage_sections, repo_tree,
}

module _ (P : PropertyTree) where
  pub child :
      (k d : Text) (l : Sections P)
      → is_key k ≡ true
      → P.get_child k (P.node d l) ≡ first_section k l
  child k d l key =
      P.get_child-first k (P.node d l) key ∙ ap (first_section k) (P.sections-node d l)

  pub text_at-child :
      (k t : Text) (l : Sections P)
      → is_key k ≡ true
      → first_section k l ≡ some (leaf P t)
      → text_at P k (P.node [] l) ≡ ok t
  text_at-child k t l key e = rw (child k [] l key, e, P.get_string-node t []) refl

  pub child-path :
      (k p : Text) (u : P.Ptree) (l : Sections P)
      → is_key k ≡ true
      → first_section k l ≡ some u
      → P.get_child (k ++ 46 ∷ p) (P.node [] l) ≡ P.get_child p u
  child-path k p u l key e = P.get_child-path k p (P.node [] l) u key (child k [] l key ∙ e)

  pub text_at-path :
      (k p t : Text) (l m : Sections P)
      → is_key k ≡ true
      → first_section k l ≡ some (P.node [] m)
      → text_at P p (P.node [] m) ≡ ok t
      → text_at P (k ++ 46 ∷ p) (P.node [] l) ≡ ok t
  text_at-path k p t l m key e there = rw (child-path k p (P.node [] m) l key e) there

  module _ (N : Names) where
    pub read_data-prefixes :
        (ns : List Text) (l : Sections P) (seen : List Text) (d : ℕ)
        → All (λ n. N.make_name n ≡ some n) ns
        → read_data P N (prefix_sections P ns ++ l) (seen, d) ≡ read_data P N l (seen ++ ns, d)
    unfolding read_data data_option text_eq
    read_data-prefixes [] l seen d h = rw (append-nil seen) refl
    read_data-prefixes (n ∷ ns) l seen d h =
        rw (P.get_string-node n [], h.0)
          (read_data-prefixes ns l (seen ++ n ∷ []) d h.1 ∙ rw (append_assoc seen (n ∷ []) ns) refl)

    pub read_data-document :
        (s : Settings P)
        → All (λ n. N.make_name n ≡ some n) s.prefixes
        → ((n : ℕ) → s.subset ≡ some n → n < 2 ^ 31)
        → read_data P N (P.sections (data_tree P s)) ([], disabled_subset_length)
          ≡ ok (s.prefixes, subset_of s.subset)
    unfolding read_data data_option text_eq to_u64
    read_data-document s h small =
        rw (P.sections-node [] (prefix_sections P s.prefixes ++ subset_sections P s.subset)) (
          read_data-prefixes s.prefixes (subset_sections P s.subset) [] disabled_subset_length h
          ∙ last s.subset small)
      where
        whole : (n : ℕ) → n < 2 ^ 31 → n % 2 ^ 64 ≡ n
        whole n k = omega (arith, k)

        last :
            (o : Option ℕ)
            → ((n : ℕ) → o ≡ some n → n < 2 ^ 31)
            → read_data P N (subset_sections P o) (s.prefixes, disabled_subset_length)
              ≡ ok (s.prefixes, subset_of o)
        last none k = refl
        last (some n) k =
            rw (P.get_int-print_number n [] (k n refl))
              (ap (λ m. ok (s.prefixes, m)) (whole n (k n refl)))

    pub read_endpoints-document :
        (o : Option (Option Text × Option Text))
        → read_endpoints P N (first_section (codes "tcp_bulk_insert") (bulk_sections P o))
          ≡ ok (endpoints_of o)
    unfolding read_endpoints read_endpoint endpoint_option text_eq
    read_endpoints-document none = refl
    read_endpoints-document (some (none, none)) = rw (P.sections-node [] []) refl
    read_endpoints-document (some (some host, none)) =
        rw (P.sections-node [] _, P.get_string-node host []) refl
    read_endpoints-document (some (none, some port)) =
        rw (P.sections-node [] _, P.get_string-node port []) refl
    read_endpoints-document (some (some host, some port)) =
        rw (P.sections-node [] _, P.get_string-node port [], P.get_string-node host []) refl

    pub read_method-document :
        (path : Text) (n : ℕ) (o : Option Text)
        → read_method P N (P.node [] (storage_sections P path n o)) ≡ ok (method_of o)
    unfolding read_method method_option text_eq is_key
    read_method-document path n none =
        rw (text_at-child (codes "method") (codes "fs") (storage_sections P path n none) refl refl)
          refl
    read_method-document path n (some db) =
        let l = storage_sections P path n (some db) in
        rw
          (
            text_at-child (codes "method") (codes "mongodb") l refl refl,
            text_at-path (codes "mongodb") (codes "db") db l ((codes "db", leaf P db) ∷ []) refl
                refl (text_at-child (codes "db") db ((codes "db", leaf P db) ∷ []) refl refl),
          )
          refl

    -- What stands in the section on the cluster.
    pub at_cluster :
        (s : Settings P) (key t : Text)
        → is_key key ≡ true
        → first_section key (cluster_sections P s.node_prefix s.prefix s.role) ≡ some (leaf P t)
        → text_at P (codes "cluster." ++ key) (repo_tree P s) ≡ ok t
    unfolding text_eq is_key
    at_cluster s key t k e =
        text_at-path (codes "cluster") key t _ (cluster_sections P s.node_prefix s.prefix s.role)
          refl refl (text_at-child key t (cluster_sections P s.node_prefix s.prefix s.role) k e)
