-- ===== src/DeleteHandle/Refused.antt =====
-- A deletion of src/handles/delete-handle.cpp that a repository refuses.
use difs.Prelude.{
  Text, ℕ, ◌≤◌, ◌<◌, ◌≡◌, refl, ◌∙◌, ltb, ◌==◌, true, List, [], ◌∷◌, ◌++◌, some, drop, length, map,
  arith, codes, suc,
}
use difs.Prelude.Assoc.{put, lookup}
use difs.Tlv.{Tlv}
use difs.Manifest.{Repo, Manifest}
use difs.Command.Parameter.{RepoCommandParameter}
use difs.Storage.{Libs, Storage, found}
use difs.Storage.RepoStorage.{read_manifest}
use difs.DeleteHandle.{
  ProcessInfo, DeleteHandle, done, Sent, replied, some_or, process_at, set_process,
  on_delete_data_command_response, negative_reply,
}
use difs.DeleteHandle.Responses.{Response, asks, Accepted, responses, response-next}
use difs.DeleteHandle.Process.{whole, manifest-started}

module _ (T : Tlv) (L : Libs) (S : Storage L) where
  -- The answer to a refusal.
  abbrev pub refusal : Response → Sent
  refusal r = replied r.interest (negative_reply T 405 (codes "Delete data failed"))

  -- A process that has got so far: the store is as it was, and the process is in the map.
  abbrev pub Stays : ℕ → ProcessInfo → DeleteHandle T L S → DeleteHandle T L S → Type 0
  Stays pid v h h' = (h'.store ≡ h.store) × (lookup pid h'.processes ≡ some v)

  response-refused :
      (p : RepoCommandParameter) (pid : ℕ) (r : Response) (h : DeleteHandle T L S) (v : ProcessInfo)
      → 400 < r.code
      → on_delete_data_command_response T L S r.interest r.code p pid r.fresh
          (set_process T L S pid v h)
        ≡ done (set_process T L S pid v (set_process T L S pid v h)) (refusal r ∷ [])
  unfolding on_delete_data_command_response
  response-refused p pid r h v k =
      let over : ltb 400 r.code ≡ true = ground arith in
      let self : (pid == pid) ≡ true = ground arith in rw (over, self) refl

  set_process-Stays :
      (pid : ℕ) (v : ProcessInfo) (h : DeleteHandle T L S)
      → Stays pid v h (set_process T L S pid v (set_process T L S pid v h))
  unfolding set_process lookup put
  set_process-Stays pid v h = (refl, ground arith)

  set_process-store :
      (pid : ℕ) (v : ProcessInfo) (h : DeleteHandle T L S)
      → (set_process T L S pid v h).store ≡ h.store
  unfolding set_process
  set_process-store pid v h = refl

  asks-none : (name : Text) (pid : ℕ) (repos : List Repo) → asks name pid [] repos ≡ []
  unfolding asks
  asks-none name pid [] = refl
  asks-none name pid (repo ∷ repos) = refl

  responses-refused :
      (p : RepoCommandParameter) (pid : ℕ) (repos : List Repo) (rs : List Response) (r : Response)
      (h : DeleteHandle T L S) (i name hash : Text)
      → Accepted rs
      → length rs ≤ length repos
      → 400 < r.code
      → (h' : DeleteHandle T L S) × (responses T L S p pid (rs ++ r ∷ []) (
            set_process T L S pid
              (record { interest = i; repos = repos; name = name; hash = hash })
              h)
          ≡ some (h', asks name pid (map (λ (x : Response). x.fresh) rs) repos ++ refusal r ∷ []))
        × Stays pid
            (record { interest = i; repos = drop (length rs) repos; name = name; hash = hash })
            h
            h'
  unfolding responses asks
  responses-refused p pid repos [] r h i name hash a l k =
      let v : ProcessInfo = record { interest = i; repos = repos; name = name; hash = hash } in
      (
        set_process T L S pid v (set_process T L S pid v h),
        rw (response-refused p pid r h v k, asks-none name pid repos) refl,
        set_process-Stays pid v h,
      )
  responses-refused p pid [] (r' ∷ rs) r h i name hash a l k = absurd (omega arith)
  responses-refused p pid (repo ∷ repos) (r' ∷ rs) r h i name hash a l k =
      let v : ProcessInfo = record {
        interest = i;
        repos = repo ∷ repos;
        name = name;
        hash = hash;
      } in
      let h1 = set_process T L S pid v (set_process T L S pid v h) in
      let (h', runs, stays) =
        responses-refused p pid repos rs r h1 i name hash a.1 (omega arith) k in
      (
        h',
        rw (response-next T L S p pid r' h i repo repos name hash a.0, runs) refl,
        (
          stays.0 ∙ set_process-store pid v (set_process T L S pid v h) ∙ set_process-store pid v h,
          stays.1,
        ),
      )

  refused :
      (interest : Text) (p : RepoCommandParameter) (pid fresh : ℕ) (rs : List Response)
      (r : Response) (h : DeleteHandle T L S) (m : Manifest) (repos : List Repo)
      → read_manifest L S (drop 1 (some_or [] p.name)) h.store ≡ found m
      → m.repos ≡ repos
      → length rs < length repos
      → Accepted rs
      → 400 < r.code
      → (h' : DeleteHandle T L S) × (whole T L S interest p pid fresh (rs ++ r ∷ []) h
          ≡ some (
            h',
            asks m.name pid (fresh ∷ map (λ (x : Response). x.fresh) rs) repos ++ refusal r ∷ [],
          ))
        × Stays pid
            (record {
              interest = interest;
              repos = drop (suc (length rs)) repos;
              name = m.name;
              hash = drop 1 (some_or [] p.name);
            })
            h
            h'
  unfolding whole asks
  refused interest p pid fresh rs r h m [] e g l a k = absurd (omega arith)
  refused interest p pid fresh rs r h m (repo ∷ repos) e g l a k =
      let hash = drop 1 (some_or [] p.name) in
      let named : ProcessInfo = record (process_at T L S pid h) { interest = interest } in
      let v : ProcessInfo = record {
        interest = interest;
        repos = repo ∷ repos;
        name = m.name;
        hash = hash;
      } in
      let h1 = set_process T L S pid named h in
      let h2 = set_process T L S pid v h1 in
      let (h', runs, stays) =
        responses-refused p pid repos rs r h2 interest m.name hash a (omega arith) k in
      (
        h',
        rw (manifest-started T L S interest p pid fresh h m repo repos e g, runs) refl,
        (stays.0 ∙ set_process-store pid v h1 ∙ set_process-store pid named h, stays.1),
      )

  -- A deletion of a manifest that is kept, where some repositories, not all, answer with a code of
  -- at most 400 and the next one with a higher code: as many repositories are asked as have
  -- answered; the answer 405 goes to the interest that this node has sent to the last of them, and
  -- none to the command; no manifest is deleted; and the process stays in the map, with the
  -- repositories that were not asked.
  pub whole-refused :
      (interest : Text) (p : RepoCommandParameter) (pid fresh : ℕ) (rs : List Response)
      (r : Response) (h : DeleteHandle T L S) (m : Manifest)
      → read_manifest L S (drop 1 (some_or [] p.name)) h.store ≡ found m
      → length rs < length m.repos
      → Accepted rs
      → 400 < r.code
      → (h' : DeleteHandle T L S) × (whole T L S interest p pid fresh (rs ++ r ∷ []) h
          ≡ some (
            h',
            asks m.name pid (fresh ∷ map (λ (x : Response). x.fresh) rs) m.repos ++ refusal r ∷ [],
          ))
        × (h'.store ≡ h.store)
        × (lookup pid h'.processes
            ≡ some (record {
              interest = interest;
              repos = drop (suc (length rs)) m.repos;
              name = m.name;
              hash = drop 1 (some_or [] p.name);
            }))
  whole-refused interest p pid fresh rs r h m e l a k =
      let (h', runs, stays) = refused interest p pid fresh rs r h m m.repos e refl l a k in
      (h', runs, stays.0, stays.1)
