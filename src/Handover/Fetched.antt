-- ===== src/Handover/Fetched.antt =====
-- The manifests that the new node asks the old one for.
use difs.Prelude.{
  Text, text_eq, text_eq_iff, among, ◌≡◌, refl, sym, ap, ◌∙◌, inl, inr, Bool-cases, List, [], ◌∷◌,
  ◌++◌, some, map, All, if◌then◌else◌,
}
use difs.Tlv.{Tlv}
use difs.Manifest.{get_hash, to_json, from_json}
use difs.Storage.{Libs, Storage, Contract, found}
use difs.Storage.RepoStorage.{insert_manifest, read_manifest}
use difs.KeySpace.Handle.{Sent, asked_manifest}
use difs.ManifestHandle.{ManifestHandle, handle_find_command}
use difs.ManifestHandle.Stored.{reads_back, own_hash}
use difs.Handover.{on_manifest_command_response, fetch_one, fetch_all}
use difs.Handover.Picked.{either, Kept}

module _ (L : Libs) (S T : Storage L) (D : Tlv) (ValidT : T.State → Type 0)
    (E : Contract L T ValidT) where
  plain_again :
      (s : S.State) (hash : Text) (k : Kept L S s hash)
      → record k.manifest { hash = [] } ≡ k.manifest
  plain_again s hash k = ap (λ (t : Text). record k.manifest { hash = t }) (sym k.plain)

  back :
      (s : S.State) (hash : Text) (k : Kept L S s hash)
      → from_json L.json (to_json L.sha1 L.json k.manifest) ≡ some k.manifest
  back s hash k = reads_back L S k.manifest k.some_repo ∙ ap some (plain_again s hash k)

  key : (s : S.State) (hash : Text) (k : Kept L S s hash) → get_hash L.sha1 k.manifest ≡ hash
  key s hash k =
      ap (get_hash L.sha1) (sym (plain_again s hash k)) ∙ own_hash L S k.manifest ∙ k.under

  fetch_one_lem :
      (hash : Text) (old : ManifestHandle L S) (new : T.State) (k : Kept L S old.store hash)
      → fetch_one L S T D hash old new ≡ some (insert_manifest L T k.manifest new).1
  unfolding fetch_one on_manifest_command_response handle_find_command
  fetch_one_lem hash old new k = rw (k.there, back old.store hash k) refl

  read-inserted :
      (hash x : Text) (s : S.State) (new : T.State) (k : Kept L S s hash)
      → ValidT new
      → read_manifest L T x (insert_manifest L T k.manifest new).1
        ≡ (if text_eq hash x then read_manifest L S x s else read_manifest L T x new)
  unfolding insert_manifest
  read-inserted hash x s new k v =
      let put : read_manifest L T x (T.insert_manifest k.manifest new).1
          ≡ (if text_eq hash x then found k.manifest else read_manifest L T x new) =
        unfold read_manifest in
        E.read_manifest-insert_manifest k.manifest x new v
        ∙ rw (key s hash k, back s hash k) refl in
      elim (Bool-cases (text_eq hash x)) [
        | inl same ↦
            put
            ∙ rw same (sym k.there ∙ ap (λ t. read_manifest L S t s) ((text_eq_iff hash x).0 same))
        | inr other ↦ put ∙ rw other refl
      ]

  -- The old node's answers to the requests for some hashes, stored by the new node.
  pub fetch_all-read :
      (hashes : List Text) (node : Text) (rest : List Sent) (old : ManifestHandle L S)
      (new : T.State)
      → ValidT new
      → All (Kept L S old.store) hashes
      → (new' : T.State) × (fetch_all L S T D (map (asked_manifest node) hashes ++ rest) old new
          ≡ fetch_all L S T D rest old new')
        × ValidT new'
        × ((x : Text)
            → read_manifest L T x new'
              ≡ (if among x hashes then read_manifest L S x old.store else read_manifest L T x new))
  unfolding fetch_all insert_manifest
  fetch_all-read [] node rest old new v h = (new, refl, v, λ x. refl)
  fetch_all-read (hash ∷ hashes) node rest old new v h =
      let new1 = (insert_manifest L T h.0.manifest new).1 in
      let (new', run, v', reads) =
        fetch_all-read hashes node rest old new1 (E.insert_manifest-Valid h.0.manifest new v) h.1 in
      (
        new',
        rw (fetch_one_lem hash old new h.0) run,
        v',
        λ x.
            reads x
            ∙ rw (read-inserted hash x old.store new h.0 v) (
                either (text_eq hash x) (among x hashes) (read_manifest L S x old.store)
                  (read_manifest L T x new)),
      )
