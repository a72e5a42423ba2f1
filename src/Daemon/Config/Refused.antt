-- ===== src/Daemon/Config/Refused.antt =====
-- A configuration file with an option that `parseConfig` of src/repo.cpp does not know.
use difs.Prelude.{Text, codes, text_eq, ◌≡◌, refl, false, List, [], ◌∷◌, ◌++◌, some, All}
use difs.Daemon.Libraries.{is_key, PropertyTree, Names}
use difs.Daemon.{
  repo_error, data_option, read_data, read_repo, parse_config, disabled_subset_length,
}
use difs.Daemon.Config.{Sections, prefix_sections}
use difs.Daemon.Config.Sections.{child, read_data-prefixes}

module _ (P : PropertyTree) (N : Names) where
  abbrev pub data_sections : List Text → Text → P.Ptree → Sections P → Sections P
  data_sections ns key t rest = prefix_sections P ns ++ (key, t) ∷ rest

  read_data-unknown :
      (ns : List Text) (key : Text) (t : P.Ptree) (rest : Sections P)
      → All (λ n. N.make_name n ≡ some n) ns
      → text_eq key (codes "prefix") ≡ false
      → text_eq key (codes "registration-subset") ≡ false
      → read_data P N (data_sections ns key t rest) ([], disabled_subset_length) ≡ repo_error
  unfolding read_data data_option
  read_data-unknown ns key t rest h a b =
      rw (read_data-prefixes P N ns ((key, t) ∷ rest) [] disabled_subset_length h) (rw (a, b) refl)

  -- Where the section on the data has prefixes that can be read, and then an option that is neither
  -- of the two known ones, the file is refused with a `Repo::Error`, whatever follows it there and
  -- whatever the other sections are.
  pub parse_config-unknown :
      (path : Text) (ns : List Text) (key : Text) (t : P.Ptree) (rest others : Sections P)
      → All (λ n. N.make_name n ≡ some n) ns
      → text_eq key (codes "prefix") ≡ false
      → text_eq key (codes "registration-subset") ≡ false
      → parse_config P N path (
          some (
            P.write_info (
              P.node [] (
                (
                  codes "repo",
                  P.node [] ((codes "data", P.node [] (data_sections ns key t rest)) ∷ others),
                )
                ∷ []))))
        ≡ repo_error
  unfolding parse_config read_repo text_eq is_key
  parse_config-unknown path ns key t rest others h a b =
      let data_node = P.node [] (data_sections ns key t rest) in
      let repo = P.node [] ((codes "data", data_node) ∷ others) in
      rw
        (
          P.read-write (P.node [] ((codes "repo", repo) ∷ [])),
          child P (codes "repo") [] ((codes "repo", repo) ∷ []) refl,
          child P (codes "data") [] ((codes "data", data_node) ∷ others) refl,
          P.sections-node [] (data_sections ns key t rest),
          read_data-unknown ns key t rest h a b,
        )
        refl
