-- ===== src/Handover/Complete.antt =====
-- The whole exchange: the old node lists what it keeps, and the new one takes over its share.
use difs.Prelude.{
  Text, text_eq, text_eq_iff, text_eq_refl, starts_with, among, among-append, ℕ, zero, suc, ◌+◌,
  ◌-◌, ◌≤◌, ◌<◌, leb, ◌++◌, ◌≡◌, refl, sym, ap, ◌∙◌, inl, inr, Bool, Bool-cases, true, false, ◌&&◌,
  ◌||◌, List, [], ◌∷◌, some, All, if◌then◌else◌, arith,
}
use difs.Prelude.Int.{ℤ, pos}
use difs.Prelude.Hex.{hex, hex_fixed}
use difs.Tlv.{Tlv}
use difs.Json.{JsonCodec}
use difs.Manifest.{Manifest}
use difs.Storage.{Libs, Storage, Contract, Loaded, missing, broken, found, is_there}
use difs.Storage.RepoStorage.{read_manifest}
use difs.KeySpace.{next, rounds}
use difs.KeySpace.Handle.{
  KeySpaceHandle, done, replied_text, c_text, on_manifest_list_command_response,
  on_complete_command_response,
}
use difs.KeySpace.Moves.{picks, picked, starts_with-hex, within, up_to}
use difs.KeySpace.Lookup.{next_pos, rounds_pos}
use difs.ManifestHandle.{ManifestHandle}
use difs.DeleteHandle.{DeleteHandle}
use difs.Handover.{handle_manifest_list_command, fetch_all, delete_all}
use difs.Handover.Picked.{Kept, or_true}
use difs.Handover.Moved.{sent_by, handle_of, hand_over_lem}

-- Whether a hash begins with the digits, with no leading zero, of one of the numbers.
unfoldable pub hits : ℕ → ℤ → Text → Bool
hits zero start x = false
hits (suc left) start x = starts_with (hex start) x || hits left (next start) x

-- From 16 on a number has two digits, so a hash begins with those of its first byte.
hits-within :
    (b left n : ℕ) (t : Text)
    → b < 256
    → 16 ≤ n
    → n + left ≤ 256
    → hits left (pos n) (hex_fixed 2 b ++ t) ≡ within n left b
unfolding hits
hits-within b zero n t h k l = ground arith
hits-within b (suc left) n t h k l =
    rw
      (
        starts_with-hex n b t (omega arith) h,
        next_pos n,
        hits-within b left (suc n) t h (omega arith) (omega arith),
      )
      (ground arith)

-- Whether a byte lies in a range of bytes.
abbrev pub in_share : ℕ → ℕ → ℕ → Bool
in_share lo hi b = leb lo b && leb b hi

hits-in_share :
    (lo hi b : ℕ) (t : Text)
    → b < 256
    → 16 ≤ lo
    → lo ≤ hi
    → hi < 256
    → hits (rounds (pos lo) (pos hi)) (pos lo) (hex_fixed 2 b ++ t) ≡ in_share lo hi b
hits-in_share lo hi b t h k l m =
    rw (rounds_pos lo hi) (hits-within b (suc hi - lo) lo t h k (omega arith) ∙ up_to lo hi b l)

among-if :
    (b s : Bool) (x name : Text) (rest : List Text)
    → among x rest ≡ (text_eq name x && s)
    → among x (if b then name ∷ rest else rest) ≡ (text_eq name x && (b || s))
among-if true s x name rest e = ground arith
among-if false s x name rest e = e

and_false : (a : Bool) → (a && false) ≡ false
and_false true = refl
and_false false = refl

among-picks :
    (left : ℕ) (start : ℤ) (name x : Text)
    → among x (picks left start name) ≡ (text_eq name x && hits left start x)
unfolding picks hits
among-picks zero start name x = sym (and_false (text_eq name x))
among-picks (suc left) start name x =
    among-if (starts_with (hex start) name) (hits left (next start) x) x name
      (picks left (next start) name) (among-picks left (next start) name x)
    ∙ elim (Bool-cases (text_eq name x)) [
      | inl same ↦
          ap (λ n. text_eq name x && (starts_with (hex start) n || hits left (next start) x))
            ((text_eq_iff name x).0 same)
      | inr other ↦ rw other refl
    ]

among-picked :
    (start end : ℤ) (names : List Text) (x : Text)
    → among x (picked start end names) ≡ (among x names && hits (rounds start end) start x)
unfolding picked
among-picked start end [] x = refl
among-picked start end (name ∷ names) x =
    among-append x (picks (rounds start end) start name) (picked start end names)
    ∙ rw (among-picks (rounds start end) start name x, among-picked start end names x)
        (share (text_eq name x) (among x names) (hits (rounds start end) start x))
  where
    share : (a b c : Bool) → ((a && c) || (b && c)) ≡ ((a || b) && c)
    share true true true = refl
    share true true false = refl
    share true false true = refl
    share true false false = refl
    share false true c = refl
    share false false c = refl

-- Nothing is missing twice.
missing-share :
    (r : Loaded Manifest) (b : Bool)
    → (if is_there r && b then missing else r) ≡ (if b then missing else r)
missing-share missing true = refl
missing-share missing false = refl
missing-share broken true = refl
missing-share broken false = refl
missing-share (found m) true = refl
missing-share (found m) false = refl

module _ (L : Libs) (S T : Storage L) (D : Tlv) (Valid : S.State → Type 0) (C : Contract L S Valid)
    (ValidT : T.State → Type 0) (E : Contract L T ValidT) where
  names-All :
      (s : S.State) (names : List Text)
      → ((x : Text) → among x names ≡ true → Kept L S s x)
      → All (Kept L S s) names
  names-All s [] h = tt
  names-All s (name ∷ names) h = (
    h name (rw (text_eq_refl name) refl),
    names-All s names (λ x k. h x (or_true (text_eq name x) (among x names) k)),
  )

  exchange :
      (lists : JsonCodec (List Text)) (h : KeySpaceHandle) (text : Text) (names : List Text)
      (finder : ManifestHandle L S) (deleter : DeleteHandle D L S) (new : T.State)
      → text ≡ lists.write_json names
      → c_text (lists.write_json names) ≡ lists.write_json names
      → deleter.store ≡ finder.store
      → Valid finder.store
      → ValidT new
      → ((x : Text) → among x names ≡ is_there (read_manifest L S x finder.store))
      → ((x : Text) → is_there (read_manifest L S x finder.store) ≡ true → Kept L S finder.store x)
      → let asks = on_manifest_list_command_response lists text h in
        let deletes = on_complete_command_response lists (handle_of asks) in
        (new' : T.State) × (fetch_all L S T D (sent_by asks) finder new ≡ some new')
        × ((x : Text)
            → read_manifest L T x new' ≡ (
                if is_there (read_manifest L S x finder.store)
                  && hits (rounds h.start h.end) h.start x
                then read_manifest L S x finder.store
                else read_manifest L T x new))
        × ((x : Text)
            → read_manifest L S x (delete_all L S T D (sent_by deletes) deleter).store ≡ (
                if hits (rounds h.start h.end) h.start x
                then missing
                else read_manifest L S x finder.store))
  exchange lists h [] names finder deleter new t z same v w listed kept =
      absurd (lists.write-ne-nil names (sym t))
  exchange lists h (c ∷ content) names finder deleter new t z same v w listed kept =
      let e : lists.read_json (c_text (c ∷ content)) ≡ some names =
        ap (λ t. lists.read_json (c_text t)) t ∙ ap lists.read_json z ∙ lists.read-write names in
      let (new', run, reads, left) =
        hand_over_lem L S T D Valid C ValidT E lists h c content names finder deleter new e same v w
          (names-All finder.store names (λ x k. kept x (sym (listed x) ∙ k))) in
      let share = λ (x : Text).
        among-picked h.start h.end names x
        ∙ ap (λ b. b && hits (rounds h.start h.end) h.start x) (listed x) in
      (
        new',
        run,
        λ x. reads x ∙ rw (share x) refl,
        λ x.
            left x
            ∙ rw (share x) (
                missing-share (read_manifest L S x finder.store)
                  (hits (rounds h.start h.end) h.start x)),
      )

  -- The old node lists the hashes of all manifests that it keeps, each of them under the hash of
  -- its name, with a repository and with no hash of its own, and the list has no zero byte. The
  -- new node has a range of bytes that does not start below 16; it asks for the manifests whose
  -- hashes begin with a byte of the range, gets the answers without an exception, and then tells the
  -- other node to delete them. At the end a hash whose first byte, two digits, is in the range reads
  -- at the new node as it did at the old one, if that had a manifest for it, and is missing at the
  -- old node; a hash with any other first byte reads at both as before.
  pub hand_over_all :
      (lists : JsonCodec (List Text)) (old h : KeySpaceHandle) (names : List Text)
      (finder : ManifestHandle L S) (deleter : DeleteHandle D L S) (new : T.State) (lo hi b : ℕ)
      (t : Text)
      → c_text (lists.write_json names) ≡ lists.write_json names
      → deleter.store ≡ finder.store
      → Valid finder.store
      → ValidT new
      → ((x : Text) → among x names ≡ is_there (read_manifest L S x finder.store))
      → ((x : Text) → is_there (read_manifest L S x finder.store) ≡ true → Kept L S finder.store x)
      → h.start ≡ pos lo
      → h.end ≡ pos hi
      → 16 ≤ lo
      → lo ≤ hi
      → hi < 256
      → b < 256
      → let x = hex_fixed 2 b ++ t in
        (content : Text) × (handle_manifest_list_command lists (some names) old
          ≡ done old (replied_text content ∷ []))
        × (let asks = on_manifest_list_command_response lists content h in
            let deletes = on_complete_command_response lists (handle_of asks) in
            (new' : T.State) × (fetch_all L S T D (sent_by asks) finder new ≡ some new')
            × (read_manifest L T x new' ≡ (
                if is_there (read_manifest L S x finder.store) && in_share lo hi b
                then read_manifest L S x finder.store
                else read_manifest L T x new))
            × (read_manifest L S x (delete_all L S T D (sent_by deletes) deleter).store
                ≡ (if in_share lo hi b then missing else read_manifest L S x finder.store)))
  unfolding handle_manifest_list_command
  hand_over_all lists old h names finder deleter new lo hi b t z same v w listed kept start end k l
        m n =
      let (new', run, reads, left) =
        exchange lists h (lists.write_json names) names finder deleter new refl z same v w listed
          kept in
      let x = hex_fixed 2 b ++ t in
      let share : hits (rounds h.start h.end) h.start x ≡ in_share lo hi b =
        rw (start, end) (hits-in_share lo hi b t n k l m) in
      (lists.write_json names, refl, (new', run, reads x ∙ rw share refl, left x ∙ rw share refl))
