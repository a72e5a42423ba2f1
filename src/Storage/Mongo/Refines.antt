-- ===== src/Storage/Mongo/Refines.antt =====
-- mongodb-storage.cpp meets the contract of the abstract storage.
use difs.Prelude.{Text, text_eq, text_eq_iff, ◌≡◌, refl, if◌then◌else◌, arith}
use difs.Manifest.{Manifest, get_hash, to_json}
use difs.Storage.{Libs, Loaded, missing, stored, same_key, Contract}
use difs.Storage.Mongo.{
  Driver, Db, insert, insert_manifest, erase, erase_manifest, read, read_manifest, has,
  has_manifest, mongo_storage,
}

module _ (L : Libs) (D : Driver) where
  -- Neither collection has two documents under one key.
  pub record Keyed (db : Db L D) : Type 0 where
    pub data_unique : D.Unique db.data_coll
    pub manifests_unique : D.Unique db.manifest_coll

  read-insert :
      (d : L.Data) (n : Text) (db : Db L D)
      → Keyed db
      → read L D n (insert L D d db).1
        ≡ (if same_key L (L.get_name d) n then Loaded.found d else read L D n db)
  unfolding read insert
  read-insert d n db v = ground (
    arith,
    D.find_one-replace_one (L.sha1_hash (L.get_name d)) (L.wire_encode d) (L.sha1_hash n)
        db.data_coll v.data_unique,
    L.decode-encode d,
  )

  read-erase :
      (x n : Text) (db : Db L D)
      → Keyed db
      → read L D n (erase L D x db).1 ≡ (if same_key L x n then missing else read L D n db)
  unfolding read erase
  read-erase x n db v = ground (
    arith,
    D.find_one-delete_one (L.sha1_hash x) (L.sha1_hash n) db.data_coll v.data_unique,
    text_eq_iff (L.sha1_hash x) (L.sha1_hash n),
  )

  read_manifest-insert_manifest :
      (m : Manifest) (h : Text) (db : Db L D)
      → Keyed db
      → read_manifest L D h (insert_manifest L D m db).1
        ≡ (if text_eq (get_hash L.sha1 m) h then stored L m else read_manifest L D h db)
  unfolding read_manifest insert_manifest
  read_manifest-insert_manifest m h db v = ground (
    arith,
    D.find_one-replace_one (get_hash L.sha1 m) (to_json L.sha1 L.json m) h db.manifest_coll
        v.manifests_unique,
  )

  read_manifest-erase_manifest :
      (x h : Text) (db : Db L D)
      → Keyed db
      → read_manifest L D h (erase_manifest L D x db).1
        ≡ (if text_eq x h then missing else read_manifest L D h db)
  unfolding read_manifest erase_manifest
  read_manifest-erase_manifest x h db v =
      ground (arith, D.find_one-delete_one x h db.manifest_coll v.manifests_unique, text_eq_iff x h)

  erase-Keyed : (x : Text) (db : Db L D) → Keyed db → Keyed (erase L D x db).1
  unfolding erase
  erase-Keyed x db v =
      ground (arith, D.delete_one-Unique (L.sha1_hash x) db.data_coll v.data_unique)

  erase_manifest-Keyed : (x : Text) (db : Db L D) → Keyed db → Keyed (erase_manifest L D x db).1
  unfolding erase_manifest
  erase_manifest-Keyed x db v =
      ground (arith, D.delete_one-Unique x db.manifest_coll v.manifests_unique)

  -- `mongo_storage` is the abstract storage too: two independent maps, data by the SHA-1 of its
  -- name and manifests by their hash, while no key has two documents.
  pub mongo_storage-Contract : Contract L (mongo_storage L D) Keyed
  unfolding has read has_manifest read_manifest insert insert_manifest erase erase_manifest
  mongo_storage-Contract = record {
    insert-Valid = λ d db v. record {
      data_unique = D.replace_one-Unique _ _ db.data_coll v.data_unique;
      manifests_unique = v.manifests_unique;
    };
    insert_manifest-Valid = λ m db v. record {
      data_unique = v.data_unique;
      manifests_unique = D.replace_one-Unique _ _ db.manifest_coll v.manifests_unique;
    };
    erase-Valid = erase-Keyed;
    erase_manifest-Valid = erase_manifest-Keyed;
    read-insert = read-insert;
    read-insert_manifest = λ m n db v. refl;
    read-erase = read-erase;
    read-erase_manifest = λ h n db v. ground arith;
    read_manifest-insert = λ d h db v. refl;
    read_manifest-insert_manifest = read_manifest-insert_manifest;
    read_manifest-erase = λ x h db v. ground arith;
    read_manifest-erase_manifest = read_manifest-erase_manifest;
    has-read = λ n db v. ground arith;
    has_manifest-read = λ h db v. ground arith;
    insert-result = λ d db. refl;
    insert_manifest-result = λ m db. refl;
    erase-result = λ n db v. ground arith;
    erase_manifest-result = λ h db v. ground arith;
  }
