-- ===== src/Storage/Disk.antt =====
-- The file system as src/storage/fs-storage.cpp uses it: Boost.Filesystem and the file streams.
-- It is a parameter; the laws are what their documentation says of paths that the process may
-- read and write. `m_path / a / b` is a path of components.
use native.Mathlib.Decide.{dec_lt}
use difs.Prelude.{
  sym, ◌∙◌, ◌≤◌, Bool-cases, inl, inr, Text, text_eq, text_eq_iff, text_eq_refl, ℕ, suc, ◌<◌, ◌≡◌,
  ◌≢◌, refl, ap, Bool, true, false, ◌&&◌, ◌||◌, if◌then◌else◌, arith,
}

-- A path below a root: the root as the configuration spells it, and one component after another.
pub data FilePath : Type 0 where
  root : Text → FilePath
  child : FilePath → Text → FilePath

unfoldable pub path_eq : FilePath → FilePath → Bool
path_eq (root a) (root b) = text_eq a b
path_eq (child p a) (child q b) = path_eq p q && text_eq a b
path_eq _ _ = false

pub path_eq_refl : (p : FilePath) → path_eq p p ≡ true
unfolding path_eq
path_eq_refl (root a) = text_eq_refl a
path_eq_refl (child p a) = ground (arith, path_eq_refl p, text_eq_refl a)

pub path_eq→eq : (p q : FilePath) → path_eq p q ≡ true → p ≡ q
unfolding path_eq
path_eq→eq (root a) (root b) h = ap root ((text_eq_iff a b).0 h)
path_eq→eq (root a) (child q b) h = cc
path_eq→eq (child p a) (root b) h = cc
path_eq→eq (child p a) (child q b) h = ground (arith, path_eq→eq p q, text_eq_iff a b)

-- `q` is `p` or lies below it.
unfoldable pub within : FilePath → FilePath → Bool
within p (root b) = path_eq p (root b)
within p (child q b) = path_eq p (child q b) || within p q

unfoldable pub depth : FilePath → ℕ
depth (root a) = 0
depth (child p a) = suc (depth p)

-- A path lies below no path that is deeper.
pub within-depth : (p q : FilePath) → depth q < depth p → within p q ≡ false
unfolding within path_eq depth
within-depth (root a) q h = absurd (omega arith)
within-depth (child p a) (root b) h = refl
within-depth (child p a) (child q b) h = ground (arith, within-depth (child p a) q, eq_depth)
  where
    eq_depth : path_eq p q ≡ true → depth p ≡ depth q
    eq_depth e = ap depth (path_eq→eq p q e)

-- Of two paths of one depth, one lies within the other exactly if they are the same.
pub within-path_eq : (p q : FilePath) → depth p ≡ depth q → within p q ≡ path_eq p q
unfolding within depth
within-path_eq p (root b) h = refl
within-path_eq p (child q b) h =
    rw (within-depth p q (omega arith)) (or_false (path_eq p (child q b)))
  where
    or_false : (b : Bool) → (b || false) ≡ b
    or_false true = refl
    or_false false = refl

-- So too for a path that is not deeper.
pub within-path_eq_shallow : (p q : FilePath) → depth q ≤ depth p → within p q ≡ path_eq p q
within-path_eq_shallow p q h = elim (Bool-cases (path_eq p q)) [
  | inl same ↦ within-path_eq p q (ap depth (path_eq→eq p q same))
  | inr other ↦ elim (dec_lt (depth q) (depth p)) [
    | yes lt ↦ within-depth p q lt ∙ sym other
    | no ge ↦ within-path_eq p q (omega arith)
  ]
]

-- What stands at a path.
pub data Node : Type 0 where
  absent directory : Node
  file : Text → Node

pub record FileSystem : Type 1 where
  pub Fs : Type 0
  pub stat : FilePath → Fs → Node
  -- `std::ofstream` on the path, one `write`, and the close.
  pub write_file : FilePath → Text → Fs → Fs
  pub create_directories : FilePath → Fs → Fs
  pub remove_all : FilePath → Fs → Fs
  -- A file whose directory is there is replaced by what is written, and no other changes.
  pub stat-write_file :
      (p : FilePath) (name bytes : Text) (fs : Fs) (q : FilePath)
      → stat p fs ≡ directory
      → stat (child p name) fs ≢ directory
      → stat q (write_file (child p name) bytes fs)
        ≡ (if path_eq (child p name) q then file bytes else stat q fs)
  -- A directory is created where its parent is one and no file stands in its place.
  pub stat-create_directories :
      (p : FilePath) (name : Text) (fs : Fs) (q : FilePath)
      → stat p fs ≡ directory
      → ((b : Text) → stat (child p name) fs ≢ file b)
      → stat q (create_directories (child p name) fs)
        ≡ (if path_eq (child p name) q then directory else stat q fs)
  pub stat-remove_all :
      (p : FilePath) (fs : Fs) (q : FilePath)
      → stat q (remove_all p fs) ≡ (if within p q then absent else stat q fs)
