-- ===== src/ReadHandle.antt =====
-- src/handles/read-handle.cpp: answers interests from the storage, forwards searches to the node
-- that keeps a manifest, and counts the packets under each prefix that it listens on.
pub mod Prefixes
use difs.Prelude.{
  Text, codes, text_eq, ℕ, suc, ◌-◌, Bool, List, [], ◌∷◌, Option, none, some, if◌then◌else◌, is_nil,
}
use difs.Prelude.Int.{ℤ, pos, ◌-ℤ◌, negsuc, int_le}
use difs.Prelude.Assoc.{Assoc, lookup, put, erase}
use difs.Manifest.{hash_of}
use difs.Command.Parameter
use difs.Command.Parameter.{RepoCommandParameter}
use difs.Command.Response.{RepoCommandResponse, make}
use difs.Storage.{Libs, Storage, Loaded, missing, broken, found}
use difs.Storage.RepoStorage.{read_data}

-- `m_insertedDataPrefixes`: prefixes with their `useCount`.
abbrev pub Prefixes : Type 0
Prefixes = List (Text × ℤ)

unfoldable pub find_prefix : Text → Prefixes → Option ℤ
find_prefix p [] = none
find_prefix p ((q, n) ∷ m) = let rest = find_prefix p m in if text_eq q p then some n else rest

unfoldable pub erase_prefix : Text → Prefixes → Prefixes
erase_prefix p [] = []
erase_prefix p ((q, n) ∷ m) =
    let rest = erase_prefix p m in if text_eq q p then rest else (q, n) ∷ rest

abbrev next : ℤ → ℤ
next n = n -ℤ negsuc 0

abbrev previous : ℤ → ℤ
previous n = n -ℤ pos 1

abbrev pub count_more : Text → Prefixes → Option ℤ → Prefixes
count_more p m none = (p, pos 1) ∷ m
count_more p m (some n) = (p, next n) ∷ erase_prefix p m

abbrev pub count_less : Text → Prefixes → Option ℤ → Prefixes
count_less p m none = m
count_less p m (some n) =
    if int_le (previous n) (pos 0) then erase_prefix p m else (p, previous n) ∷ erase_prefix p m

-- `onDataInserted` and `onDataDeleted`; `get_prefix` is `Name::getPrefix` of a negative number.
module _ (get_prefix : ℕ → Text → Text) where
  unfoldable pub on_data_inserted : ℕ → Text → Prefixes → Prefixes
  unfolding find_prefix
  on_data_inserted len name m = let p = get_prefix len name in count_more p m (find_prefix p m)

  unfoldable pub on_data_deleted : ℕ → Text → Prefixes → Prefixes
  unfolding find_prefix
  on_data_deleted len name m = let p = get_prefix (suc len) name in count_less p m (find_prefix p m)

-- What the handle sends: packets, replies to an interest, and searches with their process.
pub data Sent (Data : Type 0) : Type 0 where
  put_data : Data → Sent Data
  replied : Text → RepoCommandResponse → Sent Data
  replied_text : Text → Text → Sent Data
  asked_find : Text → RepoCommandParameter → ℕ → Sent Data

abbrev pub some_or {ℓ} : {A : Type ℓ} → A → Option A → A
some_or a none = a
some_or a (some b) = b

module _ (L : Libs) (S : Storage L) where
  -- A process is the interest that it is for.
  pub record ReadHandle : Type 0 where
    pub processes : Assoc Text
    pub store : S.State

  pub data Outcome : Type 0 where
    done : ReadHandle → List (Sent L.Data) → Outcome
    threw : ReadHandle → List (Sent L.Data) → Outcome

  abbrev send_data : ReadHandle → Loaded L.Data → Outcome
  send_data h missing = done h []
  send_data h broken = threw h []
  send_data h (found d) = done h (put_data d ∷ [])

  unfoldable pub on_interest : Text → ReadHandle → Outcome
  on_interest name h = send_data h (read_data L S name h.store)

  -- `none` is a malformed parameter; `owner` is what the key space answers.
  abbrev ask_owner : ℕ → Text → ReadHandle → Option Text → Outcome
  ask_owner pid hash h none = threw h []
  ask_owner pid hash h (some repo) = done h (
      asked_find repo (record Parameter.empty { name = some (47 ∷ hash); process_id = some pid })
        pid
      ∷ [])

  unfoldable pub on_get_interest :
      (Text → Option Text) → Text → Option RepoCommandParameter → ℕ → ReadHandle → Outcome
  on_get_interest owner interest none pid h =
      done h (replied interest (make 403 (codes "Parameter malformed")) ∷ [])
  on_get_interest owner interest (some p) pid h =
      let hash = hash_of L.sha1 (some_or [] p.name) in
      ask_owner pid hash (record h { processes = put pid interest h.processes }) (owner hash)

  -- A process that is gone is made anew, with an empty interest, and erased again.
  unfoldable pub on_find_command_response : Text → ℕ → ReadHandle → Outcome
  on_find_command_response json pid h =
      done (record h { processes = erase pid h.processes })
        (replied_text (some_or [] (lookup pid h.processes)) json ∷ [])

  unfoldable pub on_find_command_timeout : ℕ → ReadHandle → Outcome
  on_find_command_timeout pid h =
      done (record h { processes = erase pid h.processes })
        (replied (some_or [] (lookup pid h.processes)) (make 403 (codes "Manifest timeout")) ∷ [])
