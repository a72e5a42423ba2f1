-- ===== src/Handover/Picked.antt =====
-- The hashes that a node with a range picks from a list, and the manifests under them.
use difs.Prelude.{
  Text, zero, suc, starts_with, ℕ, ◌<◌, ◌≡◌, refl, inl, inr, Bool, Bool-cases, true, false, ◌||◌,
  List, [], ◌∷◌, ◌++◌, length, All, if◌then◌else◌,
}
use difs.Prelude.Int.{ℤ}
use difs.Manifest.{Manifest, hash_of}
use difs.Storage.{Libs, Storage, found}
use difs.Storage.RepoStorage.{read_manifest}
use difs.KeySpace.Moves.{picks, picked}
use difs.Prelude.Hex.{hex}
use difs.KeySpace.{next, rounds}

-- A property of all hashes holds of those that are picked.
picks-All :
    (P : Text → Type 0) (left : ℕ) (start : ℤ) (name : Text)
    → P name
    → All P (picks left start name)
unfolding picks
picks-All P zero start name h = tt
picks-All P (suc left) start name h = elim (Bool-cases (starts_with (hex start) name)) [
  | inl hit ↦ rw hit (h, picks-All P left (next start) name h)
  | inr miss ↦ rw miss (picks-All P left (next start) name h)
]

All-append : (P : Text → Type 0) (xs ys : List Text) → All P xs → All P ys → All P (xs ++ ys)
All-append P [] ys h k = k
All-append P (x ∷ xs) ys h k = (h.0, All-append P xs ys h.1 k)

pub picked-All :
    (P : Text → Type 0) (start end : ℤ) (names : List Text)
    → All P names
    → All P (picked start end names)
unfolding picked
picked-All P start end [] h = tt
picked-All P start end (name ∷ names) h =
    All-append P (picks (rounds start end) start name) (picked start end names)
      (picks-All P (rounds start end) start name h.0) (picked-All P start end names h.1)

pub either {ℓ} :
    {A : Type ℓ} (a b : Bool) (x y : A)
    → (if b then x else if a then x else y) ≡ (if a || b then x else y)
either true true x y = refl
either true false x y = refl
either false true x y = refl
either false false x y = refl

pub or_true : (a b : Bool) → b ≡ true → (a || b) ≡ true
or_true true b h = refl
or_true false b h = h

module _ (L : Libs) (S : Storage L) where
  -- The old node keeps a manifest under the hash of its name, with a repository and with no hash
  -- of its own.
  pub record Kept (s : S.State) (hash : Text) : Type 0 where
    pub manifest : Manifest
    pub there : read_manifest L S hash s ≡ found manifest
    pub under : hash_of L.sha1 manifest.name ≡ hash
    pub plain : manifest.hash ≡ []
    pub some_repo : 0 < length manifest.repos
