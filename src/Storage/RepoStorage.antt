-- ===== src/Storage/RepoStorage.antt =====
-- src/storage/repo-storage.cpp: `RepoStorage` over any storage. A signal is the name that
-- `afterDataInsertion` is called with; log lines are left out.
pub mod Laws
use difs.Prelude.{Text, List, [], ◌∷◌, Bool, true, false, Option, none, some, not, if◌then◌else◌}
use difs.Prelude.Int.{ℤ, pos, negsuc, int_eq}
use difs.Manifest.{Manifest}
use difs.Storage.{Libs, Loaded, Storage}

-- `NOTFOUND`.
abbrev pub not_found : ℤ
not_found = negsuc 0

-- What a number is as a `bool`.
unfoldable pub as_bool : ℤ → Bool
unfolding int_eq
as_bool i = not (int_eq i (pos 0))

-- What a call returns, and the signal that it sends.
pub record Reply {ℓ} (A : Type ℓ) : Type ℓ where
  pub value : A
  pub signal : Option Text

module _ (L : Libs) (S : Storage L) where
  unfoldable pub insert_data : L.Data → S.State → Reply Bool × S.State
  unfolding int_eq
  insert_data d s =
      if S.has (L.get_full_name d) s
      then (record { value = true; signal = none }, s)
      else let (id, s') = S.insert d s in
        if int_eq id not_found
        then (record { value = false; signal = none }, s')
        else (record { value = true; signal = some (L.get_name d) }, s')

  -- `deleteData(name)`; the one on an interest calls it with the interest's name.
  unfoldable pub delete_data : Text → S.State → ℤ × S.State
  delete_data name s =
      let (erased, s') = S.erase name s in if erased then (pos 1, s') else (negsuc 0, s')

  unfoldable pub read_data : Text → S.State → Loaded L.Data
  read_data name s = S.read name s

  unfoldable pub insert_manifest : Manifest → S.State → Bool × S.State
  insert_manifest m s = (true, (S.insert_manifest m s).1)

  unfoldable pub read_manifest : Text → S.State → Loaded Manifest
  read_manifest hash s = S.read_manifest hash s

  -- The function returns a `bool`, so its 1 and its -1 are converted.
  unfoldable pub delete_manifest : Text → S.State → Bool × S.State
  unfolding as_bool
  delete_manifest hash s =
      let (erased, s') = S.erase_manifest hash s in
      if erased then (as_bool (pos 1), s') else (as_bool (negsuc 0), s')
