-- ===== src/ManifestHandle.antt =====
-- src/handles/manifest-handle.cpp: a manifest is created by fetching it from the node that wrote
-- the file, and is found by its hash.
pub mod Stored
use difs.Prelude.{
  Text, codes, ℕ, ◌==◌, Bool, List, [], ◌∷◌, ◌++◌, Option, none, some, drop, if◌then◌else◌,
}
use difs.Prelude.Assoc.{Assoc, lookup, put, erase}
use difs.Tlv.{Element}
use difs.Manifest.{Manifest, to_json, from_json}
use difs.Command.Parameter.{RepoCommandParameter}
use difs.Command.Parameter
use difs.Command.Response.{RepoCommandResponse, make, set_insert_num}
use difs.Command.Response
use difs.Storage.{Libs, Storage, Loaded, missing, broken, found}
use difs.Storage.RepoStorage.{insert_manifest, read_manifest}
use difs.KeySpace.Handle.{c_text}

-- What the handlers send; `asked_info` names the node, with the process that the answer is for.
pub data Sent : Type 0 where
  replied : RepoCommandResponse → Sent
  replied_text : Text → Sent
  asked_info : Text → RepoCommandParameter → ℕ → Sent
  deferred : ℕ → Sent

abbrev pub some_or {ℓ} : {A : Type ℓ} → A → Option A → A
some_or a none = a
some_or a (some b) = b

module _ (L : Libs) (S : Storage L) where
  -- Of a process, only its response is used.
  pub record ManifestHandle : Type 0 where
    pub interest_lifetime : ℕ
    pub processes : Assoc RepoCommandResponse
    pub store : S.State

  pub data Outcome : Type 0 where
    done : ManifestHandle → List Sent → Outcome
    threw : ManifestHandle → List Sent → Outcome

  unfoldable pub delete_process : ℕ → ManifestHandle → ManifestHandle
  delete_process pid h = record h { processes = erase pid h.processes }

  -- A missing cluster prefix is a null pointer, and counts as a throw.
  abbrev ask_writer : RepoCommandParameter → ManifestHandle → Option Element → Outcome
  ask_writer p h none = threw h []
  ask_writer p h (some prefix) =
      let pid = some_or 0 p.process_id in
      let response = some_or Response.empty (lookup pid h.processes) in
      done
        (record h {
          processes = put pid response h.processes;
          interest_lifetime = some_or h.interest_lifetime p.interest_lifetime;
        })
        (replied (make 200 [])
          ∷ asked_info (c_text prefix.value)
              (record Parameter.empty { name = some (some_or [] p.name); process_id = some pid })
              pid
          ∷ [])

  unfoldable pub handle_create_command : RepoCommandParameter → ManifestHandle → Outcome
  handle_create_command p h = ask_writer p h p.cluster_prefix

  abbrev save : ℕ → ManifestHandle → RepoCommandResponse → Option Manifest → Outcome
  save pid h response none = threw h []
  save pid h response (some m) =
      done
        (record h {
          processes = put pid (set_insert_num 1 response) h.processes;
          store = (insert_manifest L S m h.store).1;
        })
        (deferred pid ∷ [])

  abbrev save_once : Text → ℕ → ManifestHandle → Option RepoCommandResponse → Outcome
  save_once content pid h none = done h []
  save_once content pid h (some response) =
      if some_or 0 response.insert_num == 0
      then save pid h response (from_json L.json content)
      else done h (deferred pid ∷ [])

  unfoldable pub on_data_validated : Text → ℕ → ManifestHandle → Outcome
  on_data_validated content pid h = save_once content pid h (lookup pid h.processes)

  unfoldable pub on_timeout : ℕ → ManifestHandle → ManifestHandle
  on_timeout pid h = record h { processes = erase pid h.processes }

  abbrev send : ManifestHandle → List Sent → Loaded Manifest → Outcome
  send h first missing = done h (first ++ replied_text [] ∷ [])
  send h first broken = threw h first
  send h first (found m) = done h (first ++ replied_text (to_json L.sha1 L.json m) ∷ [])

  -- A malformed parameter is answered, and the handler goes on with what was decoded of it.
  abbrev complaint : Bool → List Sent
  complaint malformed =
      if malformed then replied (make 403 (codes "command parameter malformed")) ∷ [] else []

  unfoldable pub handle_find_command : Bool → RepoCommandParameter → ManifestHandle → Outcome
  handle_find_command malformed p h =
      send h (complaint malformed) (read_manifest L S (drop 1 (some_or [] p.name)) h.store)
