-- ===== src/DeleteHandle/Process.antt =====
-- A deletion of src/handles/delete-handle.cpp from the manifest command to its reply.
use difs.Prelude.{
  Text, ℕ, ◌<◌, ◌≡◌, refl, ◌==◌, true, List, [], ◌∷◌, ◌++◌, Option, some, drop, length, map, arith,
}
use difs.Json.{◌>>=◌}
use difs.Tlv.{Tlv}
use difs.Manifest.{Repo, Manifest}
use difs.Command.Parameter.{RepoCommandParameter}
use difs.Storage.{Libs, Storage, found}
use difs.Storage.RepoStorage.{read_manifest}
use difs.DeleteHandle.Replies.{Success, positive_reply-Success}
use difs.Command.Response.{RepoCommandResponse}
use difs.DeleteHandle.{
  ProcessInfo, DeleteHandle, done, Sent, replied, some_or, positive_reply, process_at, set_process,
  handle_delete_manifest_command,
}
use difs.DeleteHandle.Responses.{
  Response, ask, asks, Accepted, ended, responses, left, left-set_process, responses_lem,
}

module _ (T : Tlv) (L : Libs) (S : Storage L) where
  -- A whole deletion: the manifest command, and the responses.
  unfoldable pub whole :
      Text
      → RepoCommandParameter
      → ℕ
      → ℕ
      → List Response
      → DeleteHandle T L S
      → Option (DeleteHandle T L S × List Sent)
  unfolding responses
  whole interest p pid fresh rs h = do
    (h1, sent) ← ended T L S (handle_delete_manifest_command T L S interest p pid fresh h)
    (h2, more) ← responses T L S p pid rs h1
    some (h2, sent ++ more)

  pub manifest-started :
      (interest : Text) (p : RepoCommandParameter) (pid fresh : ℕ) (h : DeleteHandle T L S)
      (m : Manifest) (repo : Repo) (repos : List Repo)
      → read_manifest L S (drop 1 (some_or [] p.name)) h.store ≡ found m
      → m.repos ≡ repo ∷ repos
      → handle_delete_manifest_command T L S interest p pid fresh h
        ≡ done
            (set_process T L S pid
              (record {
                interest = interest;
                repos = repos;
                name = m.name;
                hash = drop 1 (some_or [] p.name);
              })
              (set_process T L S pid
                (record {
                  interest = interest;
                  repos = repo ∷ repos;
                  name = m.name;
                  hash = drop 1 (some_or [] p.name);
                })
                (set_process T L S pid
                  (record (process_at T L S pid h) { interest = interest })
                  h)))
            (ask m.name pid fresh repo ∷ [])
  unfolding handle_delete_manifest_command
  manifest-started interest p pid fresh h m repo repos e g =
      let self : (pid == pid) ≡ true = ground arith in rw (e, g, self) (rw self refl)

  whole_repos :
      (interest : Text) (p : RepoCommandParameter) (pid fresh : ℕ) (rs : List Response)
      (h : DeleteHandle T L S) (m : Manifest) (repos : List Repo)
      → read_manifest L S (drop 1 (some_or [] p.name)) h.store ≡ found m
      → m.repos ≡ repos
      → 0 < length repos
      → length rs ≡ length repos
      → Accepted rs
      → whole interest p pid fresh rs h
        ≡ some (
          left T L S pid (drop 1 (some_or [] p.name)) h,
          asks m.name pid (fresh ∷ map (λ (x : Response). x.fresh) rs) repos
              ++ replied interest (positive_reply T p 200 1) ∷ [],
        )
  unfolding whole asks
  whole_repos interest p pid fresh rs h m [] e g n l k = absurd (omega arith)
  whole_repos interest p pid fresh [] h m (repo ∷ repos) e g n l k = absurd (omega arith)
  whole_repos interest p pid fresh (r ∷ rs) h m (repo ∷ repos) e g n l k =
      let hash = drop 1 (some_or [] p.name) in
      let named : ProcessInfo = record (process_at T L S pid h) { interest = interest } in
      let v : ProcessInfo = record {
        interest = interest;
        repos = repo ∷ repos;
        name = m.name;
        hash = hash;
      } in
      let h1 = set_process T L S pid named h in
      rw
        (
          manifest-started interest p pid fresh h m repo repos e g,
          responses_lem T L S p pid repos r rs (set_process T L S pid v h1) interest m.name hash k
              (omega arith),
          left-set_process T L S pid v hash h1,
          left-set_process T L S pid named hash h,
        )
        refl

  -- A deletion, with the number of a process, of a manifest that is kept and lists repositories,
  -- each of which answers with a code of at most 400: every repository is asked once for its own
  -- segments, in the manifest's order; after the last response one reply goes to the interest of the
  -- command, with the code 200, the number in the command and one deletion, the manifest is deleted
  -- and the process is gone.
  pub whole_lem :
      (interest : Text) (p : RepoCommandParameter) (pid q fresh : ℕ) (rs : List Response)
      (h : DeleteHandle T L S) (m : Manifest)
      → p.process_id ≡ some q
      → read_manifest L S (drop 1 (some_or [] p.name)) h.store ≡ found m
      → 0 < length m.repos
      → length rs ≡ length m.repos
      → Accepted rs
      → (r : RepoCommandResponse) × (whole interest p pid fresh rs h
          ≡ some (
            left T L S pid (drop 1 (some_or [] p.name)) h,
            asks m.name pid (fresh ∷ map (λ (x : Response). x.fresh) rs) m.repos
                ++ replied interest r ∷ [],
          ))
        × Success q 1 r
  whole_lem interest p pid q fresh rs h m f e n l k = (
    positive_reply T p 200 1,
    whole_repos interest p pid fresh rs h m m.repos e refl n l k,
    positive_reply-Success T p q 1 f,
  )
