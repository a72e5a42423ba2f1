-- ===== src/Manifest.antt =====
-- src/manifest/manifest.hpp and manifest.cpp: the record of where a file's segments are stored.
pub mod Hash
pub mod Documents
use difs.Prelude.{
  Text, ℕ, zero, suc, ◌+◌, ◌%◌, List, [], ◌∷◌, ◌++◌, Option, none, some, if◌then◌else◌,
}
use difs.Prelude.Int.{ℤ, pos}
use difs.Prelude.Hex.{hex_fixed}
use difs.Json.{JsonCodec, ◌>>=◌}

-- `Manifest::Repo`.
pub record Repo : Type 0 where
  pub name : Text
  pub start : ℤ
  pub end : ℤ

pub record Manifest : Type 0 where
  pub name : Text
  pub hash : Text
  pub repos : List Repo
  pub start_block_id : ℤ
  pub end_block_id : ℤ

-- The constructor.
unfoldable pub make : Text → ℤ → ℤ → Manifest
make name start end = record {
  name = name;
  hash = [];
  repos = [];
  start_block_id = start;
  end_block_id = end;
}

unfoldable pub append_repo : Text → ℤ → ℤ → Manifest → Manifest
append_repo name start end m = record m {
  repos = m.repos ++ record { name = name; start = start; end = end } ∷ [];
}

unfoldable pub set_hash : Text → Manifest → Manifest
set_hash digest m = record m { hash = digest }

-- The keys of `toJson` under each entry of "storages", and of the whole document.
pub record StorageDoc : Type 0 where
  pub storage_name : Option Text
  pub segment_start : Option ℤ
  pub segment_end : Option ℤ

pub record ManifestDoc : Type 0 where
  pub info_name : Option Text
  pub info_hash : Option Text
  pub info_start_block_id : Option ℤ
  pub info_end_block_id : Option ℤ
  pub storages : Option (List StorageDoc)
  pub segment : Option ℤ

-- The keys of `toInfoJson`.
pub record InfoDoc : Type 0 where
  pub name : Option Text
  pub hash : Option Text
  pub segment : Option ℤ

-- The loop of `getHash(name)`, over the words of the digest.
unfoldable pub hash_words : ℕ → ℕ → (ℕ → ℕ) → Text → Text
hash_words zero i block result = result
hash_words (suc left) i block result =
    hash_words left (suc i) block (result ++ hex_fixed 8 (block i))

abbrev non_empty_or : Text → Text → Text
non_empty_or [] other = other
non_empty_or (c ∷ t) other = c ∷ t

-- The loop of `toJson` over the repositories.
unfoldable pub storage_docs : List Repo → List StorageDoc
storage_docs [] = []
storage_docs (r ∷ rs) =
    record { storage_name = some r.name; segment_start = some r.start; segment_end = some r.end }
    ∷ storage_docs rs

-- The loop of `fromJson` over "storages".
unfoldable pub append_storages : List StorageDoc → Manifest → Option Manifest
unfolding append_repo
append_storages [] m = some m
append_storages (d ∷ ds) m = do
  name ← d.storage_name
  start ← d.segment_start
  end ← d.segment_end
  append_storages ds (append_repo name start end m)

-- `sha1 name i` is the i-th 32-bit word of the SHA-1 digest of the name, a parameter.
module _ (sha1 : Text → ℕ → ℕ) where
  -- The static `getHash(name)`.
  unfoldable pub hash_of : Text → Text
  unfolding hash_words
  hash_of name = hash_words 5 0 (sha1 name) []

  -- The member `getHash()`, with `makeHash()`.
  unfoldable pub get_hash : Manifest → Text
  get_hash m = non_empty_or m.hash (hash_of m.name)

  unfoldable pub manifest_doc : Manifest → ManifestDoc
  unfolding storage_docs
  manifest_doc m = record {
    info_name = some m.name;
    info_hash = some (get_hash m);
    info_start_block_id = some m.start_block_id;
    info_end_block_id = some m.end_block_id;
    storages = elim m.repos [ [] ↦ none | r ∷ rs ↦ some (storage_docs m.repos) ];
    segment = elim m.repos [ [] ↦ some m.end_block_id | r ∷ rs ↦ none ];
  }

  unfoldable pub to_json : JsonCodec ManifestDoc → Manifest → Text
  to_json json m = json.write_json (manifest_doc m)

  unfoldable pub info_doc : Manifest → InfoDoc
  info_doc m = record {
    name = some m.name;
    hash = some (get_hash m);
    segment = some m.end_block_id;
  }

  unfoldable pub to_info_json : JsonCodec InfoDoc → Manifest → Text
  to_info_json json m = json.write_json (info_doc m)

-- `none` is an exception of the parser or of a `get` that finds no such key.
unfoldable pub from_json : JsonCodec ManifestDoc → Text → Option Manifest
unfolding make append_storages
from_json json text = do
  root ← json.read_json text
  name ← root.info_name
  hash ← root.info_hash
  start ← root.info_start_block_id
  end ← root.info_end_block_id
  storages ← root.storages
  append_storages storages (make name start end)

-- A hash that does not fit the name is reported on the error stream, and kept.
unfoldable pub from_info_json : JsonCodec InfoDoc → Text → Option Manifest
unfolding make set_hash
from_info_json json text = do
  root ← json.read_json text
  name ← root.name
  hash ← root.hash
  segment ← root.segment
  some (set_hash hash (make name (pos 0) segment))
