-- ===== src/DeleteHandle/Responses.antt =====
-- A process of src/handles/delete-handle.cpp: the responses of the repositories that are asked.
use difs.Prelude.{
  Text, ℕ, ◌≤◌, ◌≡◌, refl, ap, ltb, ◌==◌, true, false, List, [], ◌∷◌, ◌++◌, Option, none, some,
  length, All, map, arith,
}
use difs.Prelude.Int.{to_u64}
use difs.Prelude.Assoc.{Assoc, put, erase}
use difs.Json.{◌>>=◌}
use difs.Tlv.{Tlv}
use difs.Manifest.{Repo}
use difs.Command.Parameter.{RepoCommandParameter, empty}
use difs.Storage.{Libs, Storage}
use difs.Storage.RepoStorage.{delete_manifest}
use difs.DeleteHandle.{
  ProcessInfo, DeleteHandle, Outcome, done, threw, Sent, replied, asked_delete_data, positive_reply,
  set_process, delete_data_from, delete_next, on_delete_data_command_response,
}

-- The response of a repository: the interest that it answers, its code, and the random number
-- that is drawn if another command follows.
pub record Response : Type 0 where
  pub interest : Text
  pub code : ℕ
  pub fresh : ℕ

-- The command that asks a repository of the manifest for its segments.
abbrev pub ask : Text → ℕ → ℕ → Repo → Sent
ask name pid fresh repo =
    asked_delete_data repo.name
      (record empty {
        name = some name;
        start_block_id = some (to_u64 repo.start);
        end_block_id = some (to_u64 repo.end);
        process_id = some fresh;
      })
      pid

-- One command for each repository, in the manifest's order.
unfoldable pub asks : Text → ℕ → List ℕ → List Repo → List Sent
asks name pid fresh [] = []
asks name pid [] (repo ∷ repos) = []
asks name pid (f ∷ fresh) (repo ∷ repos) = ask name pid f repo ∷ asks name pid fresh repos

abbrev pub Accepted : List Response → Type 0
Accepted rs = All (λ (r : Response). r.code ≤ 400) rs

module _ (T : Tlv) (L : Libs) (S : Storage L) where
  abbrev pub ended : Outcome T L S → Option (DeleteHandle T L S × List Sent)
  ended (done h sent) = some (h, sent)
  ended (threw h sent) = none

  -- The responses of a process, one after another, and everything that is sent.
  unfoldable pub responses :
      RepoCommandParameter
      → ℕ
      → List Response
      → DeleteHandle T L S
      → Option (DeleteHandle T L S × List Sent)
  responses p pid [] h = some (h, [])
  responses p pid (r ∷ rs) h = do
    (h1, sent) ← ended (on_delete_data_command_response T L S r.interest r.code p pid r.fresh h)
    (h2, more) ← responses p pid rs h1
    some (h2, sent ++ more)

  erase-put :
      (pid : ℕ) (v : ProcessInfo) (m : Assoc ProcessInfo) → erase pid (put pid v m) ≡ erase pid m
  unfolding erase put
  erase-put pid v m = ground arith

  pub response-next :
      (p : RepoCommandParameter) (pid : ℕ) (r : Response) (h : DeleteHandle T L S) (i : Text)
      (repo : Repo) (repos : List Repo) (name hash : Text)
      → r.code ≤ 400
      → on_delete_data_command_response T L S r.interest r.code p pid r.fresh (
          set_process T L S pid
            (record { interest = i; repos = repo ∷ repos; name = name; hash = hash })
            h)
        ≡ done
            (set_process T L S pid
              (record { interest = i; repos = repos; name = name; hash = hash })
              (set_process T L S pid
                (record { interest = i; repos = repo ∷ repos; name = name; hash = hash })
                (set_process T L S pid
                  (record { interest = i; repos = repo ∷ repos; name = name; hash = hash })
                  h)))
            (ask name pid r.fresh repo ∷ [])
  unfolding on_delete_data_command_response delete_next delete_data_from
  response-next p pid r h i repo repos name hash k =
      let fine : ltb 400 r.code ≡ false = ground arith in
      let self : (pid == pid) ≡ true = ground arith in rw (fine, self) (rw self refl)

  response-last :
      (p : RepoCommandParameter) (pid : ℕ) (r : Response) (h : DeleteHandle T L S)
      (i name hash : Text)
      → r.code ≤ 400
      → on_delete_data_command_response T L S r.interest r.code p pid r.fresh
          (set_process T L S pid (record { interest = i; repos = []; name = name; hash = hash }) h)
        ≡ done
            (record {
              processes = erase pid h.processes;
              store = (delete_manifest L S hash h.store).1;
            })
            (replied i (positive_reply T p 200 1) ∷ [])
  unfolding on_delete_data_command_response
  response-last p pid r h i name hash k =
      let fine : ltb 400 r.code ≡ false = ground arith in
      let self : (pid == pid) ≡ true = ground arith in rw (fine, self) refl

  -- What a process leaves: the map without it, and the store without its manifest.
  abbrev pub left : ℕ → Text → DeleteHandle T L S → DeleteHandle T L S
  left pid hash h = record {
    processes = erase pid h.processes;
    store = (delete_manifest L S hash h.store).1;
  }

  pub left-set_process :
      (pid : ℕ) (v : ProcessInfo) (hash : Text) (h : DeleteHandle T L S)
      → left pid hash (set_process T L S pid v h) ≡ left pid hash h
  unfolding set_process
  left-set_process pid v hash h =
      let stored = (delete_manifest L S hash h.store).1 in
      let with_map : Assoc ProcessInfo → DeleteHandle T L S =
        λ m. record { processes = m; store = stored } in
      ap with_map (erase-put pid v h.processes)

  pub responses_lem :
      (p : RepoCommandParameter) (pid : ℕ) (repos : List Repo) (r : Response) (rs : List Response)
      (h : DeleteHandle T L S) (i name hash : Text)
      → Accepted (r ∷ rs)
      → length rs ≡ length repos
      → responses p pid (r ∷ rs) (
          set_process T L S pid
            (record { interest = i; repos = repos; name = name; hash = hash })
            h)
        ≡ some (
          left pid hash h,
          asks name pid (map (λ (x : Response). x.fresh) (r ∷ rs)) repos
              ++ replied i (positive_reply T p 200 1) ∷ [],
        )
  unfolding responses asks
  responses_lem p pid [] r [] h i name hash k e = rw (response-last p pid r h i name hash k.0) refl
  responses_lem p pid [] r (r' ∷ rs) h i name hash k e = absurd (omega arith)
  responses_lem p pid (repo ∷ repos) r [] h i name hash k e = absurd (omega arith)
  responses_lem p pid (repo ∷ repos) r (r' ∷ rs) h i name hash k e =
      let v : ProcessInfo = record {
        interest = i;
        repos = repo ∷ repos;
        name = name;
        hash = hash;
      } in
      let h' = set_process T L S pid v (set_process T L S pid v h) in
      rw
        (
          response-next p pid r h i repo repos name hash k.0,
          responses_lem p pid repos r' rs h' i name hash k.1 (omega arith),
          left-set_process pid v hash (set_process T L S pid v h),
          left-set_process pid v hash h,
        )
        refl
