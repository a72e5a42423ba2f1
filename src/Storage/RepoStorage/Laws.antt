-- ===== src/Storage/RepoStorage/Laws.antt =====
-- What `RepoStorage` does, by the contract of the storage below it.
use difs.Prelude.{
  Text, text_eq, text_eq_refl, ◌≡◌, refl, ◌∙◌, true, false, if◌then◌else◌, arith, some, none, List,
  [], ◌∷◌,
}
use difs.Prelude.Int.{pos, negsuc, int_eq}
use difs.Manifest.{Repo, Manifest, get_hash}
use difs.Manifest.Documents.{from_json-to_json}
use difs.Storage.{Libs, missing, broken, found, stored, same_key, hash_id, Storage, Contract}
use difs.Storage.RepoStorage.{
  not_found, insert_data, delete_data, read_data, insert_manifest, read_manifest, delete_manifest,
}

module _ (L : Libs) (S : Storage L) (Valid : S.State → Type 0) (C : Contract L S Valid) where
  pub insert_data-Valid : (d : L.Data) (s : S.State) → Valid s → Valid (insert_data L S d s).1
  unfolding insert_data
  insert_data-Valid d s v = ground (arith, C.insert-Valid d s v)

  pub delete_data-Valid : (n : Text) (s : S.State) → Valid s → Valid (delete_data L S n s).1
  unfolding delete_data
  delete_data-Valid n s v = ground (arith, C.erase-Valid n s v)

  pub delete_manifest-Valid : (h : Text) (s : S.State) → Valid s → Valid (delete_manifest L S h s).1
  unfolding delete_manifest
  delete_manifest-Valid h s v = ground (arith, C.erase_manifest-Valid h s v)

  -- Reads after an insertion: if nothing is kept under the full name, the packet is read under its
  -- name, whatever the call returns, and every name with another key reads as before; if something
  -- is kept there, nothing changes.
  pub read-insert_data :
      (d : L.Data) (n : Text) (s : S.State)
      → Valid s
      → read_data L S n (insert_data L S d s).1 ≡ (
          if S.has (L.get_full_name d) s
          then read_data L S n s
          else if same_key L (L.get_name d) n
          then found d
          else read_data L S n s)
  unfolding read_data insert_data
  read-insert_data d n s v = ground (arith, C.read-insert d n s v)

  -- What an insertion returns and signals.
  pub insert_data-reply :
      (d : L.Data) (s : S.State)
      → (insert_data L S d s).0 ≡ (
          if S.has (L.get_full_name d) s
          then record { value = true; signal = none }
          else if int_eq (hash_id (L.get_name d)) not_found
          then record { value = false; signal = none }
          else record { value = true; signal = some (L.get_name d) })
  unfolding insert_data
  insert_data-reply d s = ground (arith, C.insert-result d s)

  pub has_full-insert_data :
      (d : L.Data) (s : S.State)
      → Valid s
      → same_key L (L.get_name d) (L.get_full_name d) ≡ false
      → S.has (L.get_full_name d) (insert_data L S d s).1 ≡ S.has (L.get_full_name d) s
  unfolding read_data
  has_full-insert_data d s v other = ground (
    arith,
    C.has-read (L.get_full_name d) s v,
    C.has-read (L.get_full_name d) (insert_data L S d s).1 (insert_data-Valid d s v),
    read-insert_data d (L.get_full_name d) s v,
  )

  -- The test for a packet that is already there looks under the full name and the insertion writes
  -- under the name. So where the keys of the two differ, a second insertion of a packet replies as
  -- the first did, and sends its signal again.
  pub insert_data-twice :
      (d : L.Data) (s : S.State)
      → Valid s
      → same_key L (L.get_name d) (L.get_full_name d) ≡ false
      → (insert_data L S d (insert_data L S d s).1).0 ≡ (insert_data L S d s).0
  insert_data-twice d s v other = ground (
    arith,
    insert_data-reply d s,
    insert_data-reply d (insert_data L S d s).1,
    has_full-insert_data d s v other,
  )

  -- A deletion returns 1 if the name was there and -1 if not; afterwards the names with its key
  -- are missing, and the others read as before.
  pub delete_data_lem :
      (n j : Text) (s : S.State)
      → Valid s
      → ((delete_data L S n s).0 ≡ (if S.has n s then pos 1 else negsuc 0))
        × (read_data L S j (delete_data L S n s).1
            ≡ (if same_key L n j then missing else read_data L S j s))
  unfolding delete_data read_data
  delete_data_lem n j s v =
      (ground (arith, C.erase-result n s v), ground (arith, C.read-erase n j s v))

  -- A manifest that is inserted reads back under its hash with its name, blocks and repositories,
  -- and without the hash that was set; one with no repository makes the read throw.
  pub read_manifest-insert_manifest :
      (m : Manifest) (s : S.State)
      → Valid s
      → read_manifest L S (get_hash L.sha1 m) (insert_manifest L S m s).1
        ≡ (elim m.repos [ [] ↦ broken | r ∷ rs ↦ found (record m { hash = [] }) ])
  unfolding read_manifest insert_manifest
  read_manifest-insert_manifest m s v = cases m.repos refl
    where
      stored_as : S.read_manifest (get_hash L.sha1 m) (S.insert_manifest m s).1 ≡ stored L m
      stored_as =
          C.read_manifest-insert_manifest m (get_hash L.sha1 m) s v
          ∙ rw (text_eq_refl (get_hash L.sha1 m))

      cases :
          (l : List Repo)
          → m.repos ≡ l
          → S.read_manifest (get_hash L.sha1 m) (S.insert_manifest m s).1
            ≡ (elim m.repos [ [] ↦ broken | r ∷ rs ↦ found (record m { hash = [] }) ])
      cases [] e = stored_as ∙ rw (from_json-to_json L.sha1 L.json m, e)
      cases (r ∷ rs) e = stored_as ∙ rw (from_json-to_json L.sha1 L.json m, e)

  -- The result of `deleteManifest` is true in every case; the manifest is missing afterwards and
  -- the others read as before.
  pub delete_manifest_lem :
      (h j : Text) (s : S.State)
      → Valid s
      → ((delete_manifest L S h s).0 ≡ true)
        × (read_manifest L S j (delete_manifest L S h s).1
            ≡ (if text_eq h j then missing else read_manifest L S j s))
  unfolding delete_manifest read_manifest
  delete_manifest_lem h j s v =
      (ground arith, ground (arith, C.read_manifest-erase_manifest h j s v))
