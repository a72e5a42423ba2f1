-- ===== src/Transfer/Kept.antt =====
-- What a storage keeps after the packets of a file have been stored.
use difs.Prelude.{Text, text_eq_refl, ◌≡◌, refl, sym, ap, ◌∙◌, false, List, [], ◌∷◌, All, arith}
use difs.Storage.{Libs, Storage, Contract, same_key, found, is_there}
use difs.Storage.RepoStorage.{insert_data, read_data}
use difs.Storage.RepoStorage.Laws.{insert_data-Valid, read-insert_data}
use difs.Client.{Segment}
use difs.Transfer.{Packets, insert_all}

module _ (L : Libs) (S : Storage L) (K : Packets L) (name : Text) where
  abbrev pub data_of : Segment → L.Data
  data_of t = K.make_data name t

  abbrev pub name_of : Segment → Text
  name_of t = K.append_segment name t.number

  -- Every packet reads under its name.
  abbrev pub AllRead : List Segment → S.State → Type 0
  AllRead ts s = All (λ t. read_data L S (name_of t) s ≡ found (data_of t)) ts

  -- Nothing is kept under the full names of the packets.
  abbrev pub AllNew : List Segment → S.State → Type 0
  AllNew ts s = All (λ t. S.has (L.get_full_name (data_of t)) s ≡ false) ts

  -- The keys of the names differ from one another, and from those of the full names.
  abbrev pub Apart : List Segment → Type 0
  Apart [] = Unit
  Apart (t ∷ ts) =
      All
        (λ u.
          (same_key L (name_of u) (name_of t) ≡ false)
          × (same_key L (name_of t) (L.get_full_name (data_of u)) ≡ false))
        ts
      × Apart ts

  module _ (Valid : S.State → Type 0) (C : Contract L S Valid) where
    read-other :
        (t : Segment) (n : Text) (s : S.State)
        → Valid s
        → same_key L (name_of t) n ≡ false
        → read_data L S n (insert_data L S (data_of t) s).1 ≡ read_data L S n s
    read-other t n s v other =
        read-insert_data L S Valid C (data_of t) n s v ∙ ground (arith, K.get_name-make_data name t)

    has-other :
        (t : Segment) (n : Text) (s : S.State)
        → Valid s
        → same_key L (name_of t) n ≡ false
        → S.has n (insert_data L S (data_of t) s).1 ≡ S.has n s
    unfolding read_data
    has-other t n s v other =
        C.has-read n (insert_data L S (data_of t) s).1
          (insert_data-Valid L S Valid C (data_of t) s v)
        ∙ ap is_there (read-other t n s v other)
        ∙ sym (C.has-read n s v)

    read-new :
        (t : Segment) (s : S.State)
        → Valid s
        → S.has (L.get_full_name (data_of t)) s ≡ false
        → read_data L S (name_of t) (insert_data L S (data_of t) s).1 ≡ found (data_of t)
    read-new t s v new =
        read-insert_data L S Valid C (data_of t) (name_of t) s v
        ∙ rw (new, K.get_name-make_data name t, text_eq_refl (L.sha1_hash (name_of t))) refl

    read-insert_all :
        (ts : List Segment) (n : Text) (s : S.State)
        → Valid s
        → All (λ u. same_key L (name_of u) n ≡ false) ts
        → read_data L S n (insert_all L S K name ts s) ≡ read_data L S n s
    unfolding insert_all
    read-insert_all [] n s v h = refl
    read-insert_all (t ∷ ts) n s v h =
        read-insert_all ts n (insert_data L S (data_of t) s).1
          (insert_data-Valid L S Valid C (data_of t) s v) h.1
        ∙ read-other t n s v h.0

    AllNew-insert_data :
        (t : Segment) (ts : List Segment) (s : S.State)
        → Valid s
        → All (λ u. same_key L (name_of t) (L.get_full_name (data_of u)) ≡ false) ts
        → AllNew ts s
        → AllNew ts (insert_data L S (data_of t) s).1
    AllNew-insert_data t [] s v h new = tt
    AllNew-insert_data t (u ∷ us) s v h new = (
      has-other t (L.get_full_name (data_of u)) s v h.0 ∙ new.0,
      AllNew-insert_data t us s v h.1 new.1,
    )

    firsts :
        (P Q : Segment → Type 0) (ts : List Segment) → All (λ t. P t × Q t) ts → All P ts × All Q ts
    firsts P Q [] h = (tt, tt)
    firsts P Q (t ∷ ts) h = let (p, q) = firsts P Q ts h.1 in ((h.0.0, p), (h.0.1, q))

    pub insert_all-AllRead :
        (ts : List Segment) (s : S.State)
        → Valid s
        → Apart ts
        → AllNew ts s
        → AllRead ts (insert_all L S K name ts s)
    unfolding insert_all
    insert_all-AllRead [] s v h new = tt
    insert_all-AllRead (t ∷ ts) s v h new =
        let s' = (insert_data L S (data_of t) s).1 in
        let v' = insert_data-Valid L S Valid C (data_of t) s v in
        let (names, fulls) =
          firsts (λ u. same_key L (name_of u) (name_of t) ≡ false)
            (λ u. same_key L (name_of t) (L.get_full_name (data_of u)) ≡ false) ts h.0 in
        (
          read-insert_all ts (name_of t) s' v' names ∙ read-new t s v new.0,
          insert_all-AllRead ts s' v' h.1 (AllNew-insert_data t ts s v fulls new.1),
        )
