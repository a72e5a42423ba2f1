-- ===== src/Handover/Removed.antt =====
-- The manifests that the new node has the old one delete.
use difs.Prelude.{
  Text, text_eq, text_eq_iff, text_eq_refl, among, ◌≢◌, ◌≡◌, refl, sym, ap, ◌∙◌, inl, inr, Bool,
  Bool-cases, true, false, List, [], ◌∷◌, map, if◌then◌else◌,
}
use difs.Tlv.{Tlv}
use difs.Manifest.{Manifest}
use difs.Storage.{Libs, Storage, Contract, Loaded, missing, broken, found}
use difs.Storage.RepoStorage.{read_manifest}
use difs.Storage.RepoStorage.Laws.{delete_manifest_lem, delete_manifest-Valid}
use difs.KeySpace.Handle.{asked_delete_manifest}
use difs.DeleteHandle.{DeleteHandle, only_delete, handle_only_delete_manifest_command}
use difs.Handover.{named, delete_all, left_by}
use difs.Handover.Picked.{either, or_true}

unbroken :
    (a : Bool) (r r' : Loaded Manifest) → r ≡ (if a then missing else r') → r' ≢ broken → r ≢ broken
unbroken true r r' e h = λ k. cc
unbroken false r r' e h = λ k. h (sym e ∙ k)

module _ (L : Libs) (S T : Storage L) (D : Tlv) (Valid : S.State → Type 0)
    (C : Contract L S Valid) where
  -- One deletion at the old node.
  module _ (hash : Text) (old : DeleteHandle D L S) where
    abbrev left : DeleteHandle D L S
    left = left_by L S T D (handle_only_delete_manifest_command D L S [] (named hash) old)

    delete_one-Valid : Valid old.store → Valid left.store
    unfolding handle_only_delete_manifest_command
    delete_one-Valid v = split (read_manifest L S hash old.store)
      where
        split :
            (r : Loaded Manifest) → Valid (left_by L S T D (only_delete D L S [] hash old r)).store
        split missing = v
        split broken = v
        split (found m) = delete_manifest-Valid L S Valid C hash old.store v

    delete_one-read :
        (x : Text)
        → Valid old.store
        → read_manifest L S hash old.store ≢ broken
        → read_manifest L S x left.store
          ≡ (if text_eq hash x then missing else read_manifest L S x old.store)
    unfolding handle_only_delete_manifest_command
    delete_one-read x v whole = split (read_manifest L S hash old.store) refl
      where
        split :
            (r : Loaded Manifest)
            → read_manifest L S hash old.store ≡ r
            → read_manifest L S x (left_by L S T D (only_delete D L S [] hash old r)).store
              ≡ (if text_eq hash x then missing else read_manifest L S x old.store)
        split missing e = elim (Bool-cases (text_eq hash x)) [
          | inl same ↦
              rw same
                (sym (ap (λ t. read_manifest L S t old.store) ((text_eq_iff hash x).0 same)) ∙ e)
          | inr other ↦ rw other refl
        ]
        split broken e = absurd (whole e)
        split (found m) e = (delete_manifest_lem L S Valid C hash x old.store v).1

  pub delete_all-read :
      (hashes : List Text) (node : Text) (old : DeleteHandle D L S)
      → Valid old.store
      → ((x : Text) → among x hashes ≡ true → read_manifest L S x old.store ≢ broken)
      → (x : Text)
      → read_manifest L S x (delete_all L S T D (map (asked_delete_manifest node) hashes) old).store
        ≡ (if among x hashes then missing else read_manifest L S x old.store)
  unfolding delete_all
  delete_all-read [] node old v whole x = refl
  delete_all-read (hash ∷ hashes) node old v whole x =
      let now = left hash old in
      let here : read_manifest L S hash old.store ≢ broken =
        whole hash (rw (text_eq_refl hash) refl) in
      delete_all-read hashes node now (delete_one-Valid hash old v)
        (λ y k.
          unbroken (text_eq hash y) _ _ (delete_one-read hash old y v here)
            (whole y (or_true (text_eq hash y) (among y hashes) k)))
        x
      ∙ rw (delete_one-read hash old x v here)
          (either (text_eq hash x) (among x hashes) missing (read_manifest L S x old.store))
