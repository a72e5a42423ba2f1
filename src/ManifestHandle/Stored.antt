-- ===== src/ManifestHandle/Stored.antt =====
-- From the manifest that a node sends to the answer of a later search.
use difs.Prelude.{
  ℕ, ◌<◌, ◌≡◌, refl, sym, ap, ◌∙◌, true, false, ◌==◌, List, [], ◌∷◌, none, some, length, arith,
  drop,
}
use difs.Manifest.{Repo, Manifest, get_hash, hash_of, to_json, from_json}
use difs.Manifest.Documents.{from_json-to_json}
use difs.Command.Parameter.{RepoCommandParameter}
use difs.Command.Response.{RepoCommandResponse}
use difs.Prelude.Assoc.{lookup}
use difs.Storage.{Libs, Storage, Contract, found, broken}
use difs.Storage.RepoStorage.{insert_manifest, read_manifest}
use difs.Storage.RepoStorage.Laws.{read_manifest-insert_manifest}
use difs.ManifestHandle.{
  ManifestHandle, Outcome, done, threw, replied_text, some_or, on_data_validated,
  handle_find_command,
}

module _ (L : Libs) (S : Storage L) where
  abbrev pub state_of : Outcome L S → ManifestHandle L S
  state_of (done h sent) = h
  state_of (threw h sent) = h

  pub reads_back :
      (m : Manifest)
      → 0 < length m.repos
      → from_json L.json (to_json L.sha1 L.json m) ≡ some (record m { hash = [] })
  reads_back m h = from_json-to_json L.sha1 L.json m ∙ split m.repos h
    where
      split :
          (l : List Repo)
          → 0 < length l
          → (elim l [ [] ↦ none | r ∷ rs ↦ some (record m { hash = [] }) ])
            ≡ some (record m { hash = [] })
      split [] k = absurd (omega arith)
      split (r ∷ rs) k = refl

  saved :
      (m : Manifest) (pid : ℕ) (h : ManifestHandle L S) (response : RepoCommandResponse)
      → lookup pid h.processes ≡ some response
      → some_or 0 response.insert_num ≡ 0
      → 0 < length m.repos
      → (state_of (on_data_validated L S (to_json L.sha1 L.json m) pid h)).store
        ≡ (insert_manifest L S (record m { hash = [] }) h.store).1
  unfolding on_data_validated
  saved m pid h response at fresh some_repo =
      let waits : (some_or 0 response.insert_num == 0) ≡ true = ground arith in
      rw (at, waits, reads_back m some_repo) refl

  pub own_hash : (m : Manifest) → get_hash L.sha1 (record m { hash = [] }) ≡ hash_of L.sha1 m.name
  unfolding get_hash
  own_hash m = refl

  with_repos :
      (m : Manifest) (l : List Repo)
      → 0 < length l
      → (elim l [ [] ↦ broken | r ∷ rs ↦ found (record m { hash = [] }) ])
        ≡ found (record m { hash = [] })
  with_repos m [] k = absurd (omega arith)
  with_repos m (r ∷ rs) k = refl

  module _ (Valid : S.State → Type 0) (C : Contract L S Valid) where
    -- A process that waits for a manifest stores the one that arrives, if it lists a repository and
    -- the storage keeps the contract: a later search for the hash of its name is answered with the
    -- manifest, without the hash that was set in it.
    pub find-on_data :
        (m : Manifest) (pid : ℕ) (h : ManifestHandle L S) (response : RepoCommandResponse)
        (p : RepoCommandParameter)
        → Valid h.store
        → lookup pid h.processes ≡ some response
        → some_or 0 response.insert_num ≡ 0
        → 0 < length m.repos
        → drop 1 (some_or [] p.name) ≡ hash_of L.sha1 m.name
        → handle_find_command L S false p
            (state_of (on_data_validated L S (to_json L.sha1 L.json m) pid h))
          ≡ done
              (state_of (on_data_validated L S (to_json L.sha1 L.json m) pid h))
              (replied_text (to_json L.sha1 L.json (record m { hash = [] })) ∷ [])
    unfolding handle_find_command
    find-on_data m pid h response p v at fresh some_repo named =
        let m' = record m { hash = [] } in
        let h' = state_of (on_data_validated L S (to_json L.sha1 L.json m) pid h) in
        let read : read_manifest L S (hash_of L.sha1 m.name) h'.store ≡ found m' =
          ap (read_manifest L S (hash_of L.sha1 m.name)) (saved m pid h response at fresh some_repo)
          ∙ ap (λ t. read_manifest L S t (insert_manifest L S m' h.store).1) (sym (own_hash m))
          ∙ read_manifest-insert_manifest L S Valid C m' h.store v
          ∙ with_repos m m.repos some_repo in
        simp (named, read) refl
