-- ===== src/Handover/Moved.antt =====
-- What the two nodes keep after a hand-over.
use difs.Prelude.{
  Text, text_eq, text_eq_iff, among, subst, ◌≢◌, ℕ, ◌≡◌, sym, ap, ◌∙◌, inl, inr, Bool-cases, true,
  List, [], ◌∷◌, some, All, if◌then◌else◌,
}
use difs.Tlv.{Tlv}
use difs.Json.{JsonCodec}
use difs.Storage.{Libs, Storage, Contract, missing, broken}
use difs.Storage.RepoStorage.{read_manifest}
use difs.KeySpace.Handle as KeySpace
use difs.KeySpace.Handle.{
  KeySpaceHandle, c_text, on_manifest_list_command_response, on_complete_command_response, Sent,
  asked_manifest, asked_delete_manifest, asked_complete,
}
use difs.KeySpace.Moves.{picked, on_complete-on_manifest_list}
use difs.ManifestHandle.{ManifestHandle}
use difs.DeleteHandle.{DeleteHandle}
use difs.Handover.{fetch_all, delete_all}
use difs.Handover.Picked.{Kept, picked-All}
use difs.Handover.Fetched.{fetch_all-read}
use difs.Handover.Removed.{delete_all-read}

-- What a call of the key space handle sends, and the handle after it.
abbrev pub sent_by : KeySpace.Outcome → List Sent
sent_by (KeySpace.done h sent) = sent
sent_by (KeySpace.threw h sent) = sent

abbrev pub handle_of : KeySpace.Outcome → KeySpaceHandle
handle_of (KeySpace.done h sent) = h
handle_of (KeySpace.threw h sent) = h

module _ (L : Libs) (S T : Storage L) (D : Tlv) (Valid : S.State → Type 0) (C : Contract L S Valid)
    (ValidT : T.State → Type 0) (E : Contract L T ValidT) where
  Kept-among :
      (s : S.State) (hashes : List Text) (x : Text)
      → All (Kept L S s) hashes
      → among x hashes ≡ true
      → Kept L S s x
  Kept-among s [] x h e = absurd (cc)
  Kept-among s (y ∷ ys) x h e = elim (Bool-cases (text_eq y x)) [
    | inl same ↦ subst (Kept L S s) ((text_eq_iff y x).0 same) h.0
    | inr other ↦ Kept-among s ys x h.1 (rw other at e)
  ]

  Kept-ne-broken : (s : S.State) (x : Text) → Kept L S s x → read_manifest L S x s ≢ broken
  Kept-ne-broken s x k = λ e. cc (k.there, e)

  -- A node with the range from `start` to `end` gets a list of hashes from another node, which
  -- keeps a manifest under each of them: under the hash of its name, with a repository and with no
  -- hash of its own. The new node asks for some of the hashes, gets the answers without an
  -- exception, and tells the other node to delete what it got. At the end every hash that it asked
  -- for reads at the new node as it did at the other, where it is missing, and every other hash
  -- reads at both as before: no manifest is lost.
  pub hand_over_lem :
      (lists : JsonCodec (List Text)) (h : KeySpaceHandle) (c : ℕ) (content : Text)
      (names : List Text) (finder : ManifestHandle L S) (deleter : DeleteHandle D L S)
      (new : T.State)
      → lists.read_json (c_text (c ∷ content)) ≡ some names
      → deleter.store ≡ finder.store
      → Valid finder.store
      → ValidT new
      → All (Kept L S finder.store) names
      → let asks = on_manifest_list_command_response lists (c ∷ content) h in
        let deletes = on_complete_command_response lists (handle_of asks) in
        let hashes = picked h.start h.end names in
        (new' : T.State) × (fetch_all L S T D (sent_by asks) finder new ≡ some new')
        × ((x : Text)
            → read_manifest L T x new' ≡ (
                if among x hashes
                then read_manifest L S x finder.store
                else read_manifest L T x new))
        × ((x : Text)
            → read_manifest L S x (delete_all L S T D (sent_by deletes) deleter).store
              ≡ (if among x hashes then missing else read_manifest L S x finder.store))
  unfolding fetch_all
  hand_over_lem lists h c content names finder deleter new e same v w kept =
      let hashes = picked h.start h.end names in
      let kept_picked = picked-All (Kept L S finder.store) h.start h.end names kept in
      let (asked, told) = on_complete-on_manifest_list lists h c content names e in
      let (new', run, v', reads) =
        fetch_all-read L S T D ValidT E hashes h.from (asked_complete h.manager_prefix ∷ []) finder
          new w kept_picked in
      let deletes =
        delete_all-read L S T D Valid C hashes h.from deleter (subst Valid (sym same) v) (λ x k.
          Kept-ne-broken deleter.store x (
            subst (λ s. Kept L S s x) (sym same)
              (Kept-among finder.store hashes x kept_picked k))) in
      (
        new',
        ap (λ o. fetch_all L S T D (sent_by o) finder new) asked ∙ run,
        reads,
        λ x.
            ap
              (λ o.
                read_manifest L S x
                  (delete_all L S T D (sent_by (on_complete_command_response lists (handle_of o)))
                    deleter).store)
              asked
            ∙ ap (λ o. read_manifest L S x (delete_all L S T D (sent_by o) deleter).store) told
            ∙ deletes x
            ∙ ap (λ s. if among x hashes then missing else read_manifest L S x s) same,
      )
