-- ===== src/Daemon/Libraries.antt =====
-- What src/repo.cpp takes from Boost and ndn-cxx: property trees and names.
use difs.Prelude.{
  Text, text_eq, ℕ, ◌^◌, ◌<◌, ◌≡◌, Bool, true, not, ◌&&◌, ◌==◌, List, [], ◌∷◌, ◌++◌, Option, none,
  some, if◌then◌else◌,
}
use difs.Prelude.Int.{ℤ, pos}
use difs.Prelude.Int.{ℤ, pos}

-- Whether a key has no dot, which separates the keys of a path.
unfoldable pub is_key : Text → Bool
is_key [] = true
is_key (c ∷ t) = not (c == 46) && is_key t

abbrev pub first_section {ℓ} : {A : Type ℓ} → Text → List (Text × A) → Option A
first_section k [] = none
first_section k ((j, t) ∷ l) = if text_eq j k then some t else first_section k l

-- Boost.PropertyTree with its INFO reader and writer, where `none` is an exception.
pub record PropertyTree : Type 1 where
  pub Ptree : Type 0
  pub node : Text → List (Text × Ptree) → Ptree
  pub sections : Ptree → List (Text × Ptree)
  pub get_string : Ptree → Text
  pub get_int : Ptree → Option ℤ
  pub get_uint64 : Ptree → Option ℕ
  pub get_child : Text → Ptree → Option Ptree
  pub print_number : ℕ → Text
  pub write_info : Ptree → Text
  pub read_info : Text → Option Ptree
  pub sections-node : (d : Text) (l : List (Text × Ptree)) → sections (node d l) ≡ l
  pub get_string-node : (d : Text) (l : List (Text × Ptree)) → get_string (node d l) ≡ d
  pub get_int-print_number :
      (n : ℕ) (l : List (Text × Ptree))
      → n < 2 ^ 31
      → get_int (node (print_number n) l) ≡ some (pos n)
  pub get_uint64-print_number :
      (n : ℕ) (l : List (Text × Ptree)) → n < 2 ^ 64 → get_uint64 (node (print_number n) l) ≡ some n
  -- The first child of the key, and a path.
  pub get_child-first :
      (k : Text) (t : Ptree) → is_key k ≡ true → get_child k t ≡ first_section k (sections t)
  pub get_child-path :
      (k p : Text) (t u : Ptree)
      → is_key k ≡ true
      → get_child k t ≡ some u
      → get_child (k ++ 46 ∷ p) t ≡ get_child p u
  pub read-write : (t : Ptree) → read_info (write_info t) ≡ some t

-- `Name(uri)`, which throws on some texts, and `append` with a text. The empty name is `[]`.
pub record Names : Type 0 where
  pub make_name : Text → Option Text
  pub append : Text → Text → Text
