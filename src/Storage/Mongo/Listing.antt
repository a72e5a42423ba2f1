-- ===== src/Storage/Mongo/Listing.antt =====
-- `readDatas`, `readManifests` and `size` of src/storage/mongodb-storage.cpp. A list is a property
-- tree of names or hashes; `none` is an exception.
use difs.Prelude.{
  Text, text_eq, among, ℕ, ◌≡◌, refl, ap, ◌∙◌, ◌||◌, Bool, true, false, List, [], ◌∷◌, Option, none,
  some, is_some, length, All, if◌then◌else◌,
}
use difs.Json.{◌>>=◌}
use difs.Manifest.{Manifest, get_hash, from_json}
use difs.Storage.{Libs, same_key}
use difs.Storage.Mongo.{Driver, Db, has, has_manifest}
use difs.Storage.Mongo.Refines.{Keyed}

-- The value of a key in a list of documents.
abbrev pub value_at : Text → List (Text × Text) → Option Text
value_at k [] = none
value_at k ((j, v) ∷ docs) = if text_eq j k then some v else value_at k docs

-- Whether a value is found, where the first document has the key or not.
is_some-first :
    (b : Bool) (v : Text) (o : Option Text) → (b || is_some o) ≡ is_some (if b then some v else o)
is_some-first true v o = refl
is_some-first false v o = refl

-- `find({})`: all documents of a collection, with `count_documents` as their number.
pub record Cursor (D : Driver) : Type 0 where
  pub find : D.Coll → List (Text × Text)
  pub value_at-find : (k : Text) (c : D.Coll) → D.Unique c → value_at k (find c) ≡ D.find_one k c

module _ (L : Libs) (D : Driver) (I : Cursor D) where
  unfoldable pub names_of : List (Text × Text) → Option (List Text)
  names_of [] = some []
  names_of ((k, v) ∷ docs) = do
    d ← L.wire_decode v
    rest ← names_of docs
    some (L.get_name d ∷ rest)

  unfoldable pub read_datas : Db L D → Option (List Text)
  unfolding names_of
  read_datas db = names_of (I.find db.data_coll)

  -- The hash of what is read, not the key that it stands under.
  unfoldable pub hashes_of : List (Text × Text) → Option (List Text)
  hashes_of [] = some []
  hashes_of ((k, v) ∷ docs) = do
    m ← from_json L.json v
    rest ← hashes_of docs
    some (get_hash L.sha1 m ∷ rest)

  unfoldable pub read_manifests : Db L D → Option (List Text)
  unfolding hashes_of
  read_manifests db = hashes_of (I.find db.manifest_coll)

  unfoldable pub size : Db L D → ℕ
  size db = length (I.find db.data_coll)

  -- A document that reads as a manifest with the hash that is its key.
  pub record IsOwn (doc : Text × Text) : Type 0 where
    pub manifest : Manifest
    pub reads : from_json L.json doc.1 ≡ some manifest
    pub hash : get_hash L.sha1 manifest ≡ doc.0

  hashes_of-lists :
      (docs : List (Text × Text))
      → All IsOwn docs
      → (hashes : List Text) × (hashes_of docs ≡ some hashes)
        × ((x : Text) → among x hashes ≡ is_some (value_at x docs))
  unfolding hashes_of
  hashes_of-lists [] h = ([], refl, λ x. refl)
  hashes_of-lists ((k, v) ∷ docs) h =
      let (rest, run, lists) = hashes_of-lists docs h.1 in
      let own = h.0 in
      (
        k ∷ rest,
        rw (own.reads, run, own.hash) refl,
        λ x. ap (λ b. text_eq k x || b) (lists x) ∙ is_some-first (text_eq k x) v (value_at x docs),
      )

  -- Where no key has two documents, and every document reads as a manifest with the hash that is
  -- its key, `readManifests` throws nothing and lists a hash exactly if `hasManifest` finds it.
  pub read_manifests-lists_own :
      (db : Db L D)
      → Keyed L D db
      → All IsOwn (I.find db.manifest_coll)
      → (hashes : List Text) × (read_manifests db ≡ some hashes)
        × ((x : Text) → among x hashes ≡ has_manifest L D x db)
  unfolding read_manifests has_manifest
  read_manifests-lists_own db v h =
      let (hashes, run, lists) = hashes_of-lists (I.find db.manifest_coll) h in
      (
        hashes,
        run,
        λ x. lists x ∙ ap is_some (I.value_at-find x db.manifest_coll v.manifests_unique),
      )

  -- A document that decodes as a packet with the name that its key is the SHA-1 of.
  pub record IsOwnPacket (doc : Text × Text) : Type 0 where
    pub packet : L.Data
    pub decodes : L.wire_decode doc.1 ≡ some packet
    pub key : L.sha1_hash (L.get_name packet) ≡ doc.0

  -- Whether a name is in a list, up to the SHA-1 that packets are kept under.
  abbrev pub names_key : Text → List Text → Bool
  names_key x [] = false
  names_key x (n ∷ ns) = same_key L n x || names_key x ns

  names_of-lists :
      (docs : List (Text × Text))
      → All IsOwnPacket docs
      → (names : List Text) × (names_of docs ≡ some names)
        × ((x : Text) → names_key x names ≡ is_some (value_at (L.sha1_hash x) docs))
  unfolding names_of
  names_of-lists [] h = ([], refl, λ x. refl)
  names_of-lists ((k, v) ∷ docs) h =
      let (rest, run, lists) = names_of-lists docs h.1 in
      let own = h.0 in
      (
        L.get_name own.packet ∷ rest,
        rw (own.decodes, run) refl,
        λ x. rw (own.key) (
            ap (λ b. text_eq k (L.sha1_hash x) || b) (lists x)
            ∙ is_some-first (text_eq k (L.sha1_hash x)) v (value_at (L.sha1_hash x) docs)),
      )

  -- So too for `readDatas` and `has`, up to the SHA-1 of the names.
  pub read_datas-lists :
      (db : Db L D)
      → Keyed L D db
      → All IsOwnPacket (I.find db.data_coll)
      → (names : List Text) × (read_datas db ≡ some names)
        × ((x : Text) → names_key x names ≡ has L D x db)
  unfolding read_datas has
  read_datas-lists db v h =
      let (names, run, lists) = names_of-lists (I.find db.data_coll) h in
      (
        names,
        run,
        λ x. lists x ∙ ap is_some (I.value_at-find (L.sha1_hash x) db.data_coll v.data_unique),
      )
