-- ===== src/Manifest/Documents.antt =====
-- What the JSON documents of a manifest keep.
use mathlib.Core.List.{append_assoc, append-nil}
use difs.Prelude.{Text, ℕ, ◌≡◌, refl, ap, ◌∙◌, List, [], ◌∷◌, ◌++◌, none, some, arith}
use difs.Prelude.Int.{pos}
use difs.Json.{JsonCodec}
use difs.Manifest.{
  Repo, Manifest, ManifestDoc, InfoDoc, storage_docs, append_storages, get_hash, to_json,
  manifest_doc, from_json, to_info_json, info_doc, from_info_json, make, set_hash,
}

append_storages-docs :
    (rs : List Repo) (m : Manifest)
    → append_storages (storage_docs rs) m ≡ some (record m { repos = m.repos ++ rs })
unfolding append_storages storage_docs
append_storages-docs [] m = rw append-nil
append_storages-docs (r ∷ rs) m =
    append_storages-docs rs _ ∙ ap (λ l. some (record m { repos = l })) (append_assoc m.repos _ rs)

module _ (sha1 : Text → ℕ → ℕ) (json : JsonCodec ManifestDoc) where
  with_repos :
      (m : Manifest) (r : Repo) (rs : List Repo)
      → m.repos ≡ r ∷ rs
      → from_json json (to_json sha1 json m)
        ≡ append_storages (storage_docs (r ∷ rs)) (make m.name m.start_block_id m.end_block_id)
  unfolding from_json to_json manifest_doc
  with_repos m r rs e = rw (json.read-write (manifest_doc sha1 m), e) (rw e)

  without_repos : (m : Manifest) → m.repos ≡ [] → from_json json (to_json sha1 json m) ≡ none
  unfolding from_json to_json manifest_doc
  without_repos m e = rw (json.read-write (manifest_doc sha1 m), e)

  -- A manifest with a repository reads back with its name, its blocks and its repositories, and
  -- with no hash of its own. One with none cannot be read back: `fromJson` throws.
  pub from_json-to_json :
      (m : Manifest)
      → from_json json (to_json sha1 json m)
        ≡ (elim m.repos [ [] ↦ none | r ∷ rs ↦ some (record m { hash = [] }) ])
  unfolding make
  from_json-to_json m = split m.repos refl
    where
      split :
          (l : List Repo)
          → m.repos ≡ l
          → from_json json (to_json sha1 json m)
            ≡ (elim m.repos [ [] ↦ none | r ∷ rs ↦ some (record m { hash = [] }) ])
      split [] e = rw (without_repos m e, e)
      split (r ∷ rs) e =
          with_repos m r rs e
          ∙ append_storages-docs (r ∷ rs) (make m.name m.start_block_id m.end_block_id)
          ∙ ground arith

module _ (sha1 : Text → ℕ → ℕ) (json : JsonCodec InfoDoc) where
  -- The info document keeps the name, the hash and the last block; the blocks start at 0 again
  -- and there are no repositories.
  pub from_info_json-to_info_json :
      (m : Manifest)
      → from_info_json json (to_info_json sha1 json m)
        ≡ some (set_hash (get_hash sha1 m) (make m.name (pos 0) m.end_block_id))
  unfolding from_info_json to_info_json info_doc
  from_info_json-to_info_json m = rw (json.read-write (info_doc sha1 m))
