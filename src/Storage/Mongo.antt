-- ===== src/Storage/Mongo.antt =====
-- src/storage/mongodb-storage.cpp: packets and manifests as documents of two collections. Log
-- lines are left out.
pub mod Refines
pub mod Listing
use difs.Prelude.{Text, text_eq, ◌≡◌, Bool, true, false, Option, none, some, is_some, if◌then◌else◌}
use difs.Prelude.Int.{ℤ}
use difs.Manifest.{Manifest, get_hash, to_json, from_json}
use difs.Storage.{Libs, Loaded, missing, loaded, hash_id, Storage}

-- A collection of the driver, with documents of two fields, "key" and "value". It is a parameter;
-- the laws say what its documentation says of filters on "key".
pub record Driver : Type 1 where
  pub Coll : Type 0
  -- `find_one`: the value of a document with this key.
  pub find_one : Text → Coll → Option Text
  -- `replace_one` with `upsert`.
  pub replace_one : Text → Text → Coll → Coll
  pub delete_one : Text → Coll → Coll
  -- No key has two documents: a filter on the key finds what was last put there.
  pub Unique : Coll → Type 0
  pub replace_one-Unique : (k v : Text) (c : Coll) → Unique c → Unique (replace_one k v c)
  pub delete_one-Unique : (k : Text) (c : Coll) → Unique c → Unique (delete_one k c)
  pub find_one-replace_one :
      (k v j : Text) (c : Coll)
      → Unique c
      → find_one j (replace_one k v c) ≡ (if text_eq k j then some v else find_one j c)
  pub find_one-delete_one :
      (k j : Text) (c : Coll)
      → Unique c
      → find_one j (delete_one k c) ≡ (if text_eq k j then none else find_one j c)

abbrev parse : {A : Type 0} → (Text → Option A) → Option Text → Loaded A
parse decode none = missing
parse decode (some bytes) = loaded (decode bytes)

module _ (L : Libs) (D : Driver) where
  -- `mDB[COLLNAME_DATA]` and `mDB[COLLNAME_MANIFEST]`.
  pub record Db : Type 0 where
    pub data_coll : D.Coll
    pub manifest_coll : D.Coll

  unfoldable pub insert : L.Data → Db → ℤ × Db
  insert d db =
      let key = L.sha1_hash (L.get_name d) in
      (
        hash_id (L.get_name d),
        record db { data_coll = D.replace_one key (L.wire_encode d) db.data_coll },
      )

  unfoldable pub insert_manifest : Manifest → Db → Text × Db
  insert_manifest m db =
      let key = get_hash L.sha1 m in
      (
        key,
        record db { manifest_coll = D.replace_one key (to_json L.sha1 L.json m) db.manifest_coll },
      )

  unfoldable pub erase : Text → Db → Bool × Db
  erase name db =
      let key = L.sha1_hash name in
      if is_some (D.find_one key db.data_coll)
      then (true, record db { data_coll = D.delete_one key db.data_coll })
      else (false, db)

  unfoldable pub erase_manifest : Text → Db → Bool × Db
  erase_manifest hash db =
      if is_some (D.find_one hash db.manifest_coll)
      then (true, record db { manifest_coll = D.delete_one hash db.manifest_coll })
      else (false, db)

  unfoldable pub read : Text → Db → Loaded L.Data
  read name db = parse L.wire_decode (D.find_one (L.sha1_hash name) db.data_coll)

  unfoldable pub read_manifest : Text → Db → Loaded Manifest
  read_manifest hash db = parse (from_json L.json) (D.find_one hash db.manifest_coll)

  unfoldable pub has : Text → Db → Bool
  has name db = is_some (D.find_one (L.sha1_hash name) db.data_coll)

  unfoldable pub has_manifest : Text → Db → Bool
  has_manifest hash db = is_some (D.find_one hash db.manifest_coll)

  abbrev pub mongo_storage : Storage L
  mongo_storage = record {
    State = Db;
    insert = insert;
    insert_manifest = insert_manifest;
    erase = erase;
    erase_manifest = erase_manifest;
    read = read;
    read_manifest = read_manifest;
    has = has;
    has_manifest = has_manifest;
  }
