-- ===== src/Examples/Finite.antt =====
-- A file system and a database that can be listed: both are lists, where the first entry of a path
-- or a key counts.
use difs.Prelude.{
  Text, text_eq, text_eq_iff, ◌≡◌, refl, ap, Bool-cases, inl, inr, List, [], ◌∷◌, Option, none,
  some, if◌then◌else◌, arith,
}
use difs.Storage.Disk.{
  FilePath, root, child, path_eq, path_eq→eq, within, Node, absent, directory, file, FileSystem,
}
use difs.Storage.Fs.Listing.{Directories}
use difs.Storage.Mongo.{Driver}
use difs.Storage.Mongo.Listing.{value_at, Cursor}

-- A path with the bytes of a file, or a directory.
abbrev pub Entries : Type 0
Entries = List (FilePath × Option Text)

abbrev node : Option Text → Node
node none = directory
node (some bytes) = file bytes

abbrev pub stat_in : FilePath → Entries → Node
stat_in q [] = absent
stat_in q ((p, n) ∷ fs) = if path_eq p q then node n else stat_in q fs

abbrev remove_in : FilePath → Entries → Entries
remove_in p [] = []
remove_in p ((q, n) ∷ fs) = if within p q then remove_in p fs else (q, n) ∷ remove_in p fs

abbrev pub names_in : FilePath → Entries → List Text
names_in p [] = []
names_in p ((root a, n) ∷ fs) = names_in p fs
names_in p ((child q name, n) ∷ fs) = if path_eq q p then name ∷ names_in p fs else names_in p fs

pub stat-remove :
    (p : FilePath) (fs : Entries) (q : FilePath)
    → stat_in q (remove_in p fs) ≡ (if within p q then absent else stat_in q fs)
stat-remove p [] q = ground arith
stat-remove p ((r, n) ∷ fs) q = elim (Bool-cases (path_eq r q)) [
  | inl same ↦ ground (arith, stat-remove p fs q, ap (within p) (path_eq→eq r q same))
  | inr other ↦ ground (arith, stat-remove p fs q)
]

abbrev pub listed_fs : FileSystem
listed_fs = record {
  Fs = Entries;
  stat = stat_in;
  write_file = λ p bytes fs. (p, some bytes) ∷ fs;
  create_directories = λ p fs. (p, none) ∷ fs;
  remove_all = remove_in;
  stat-write_file = λ p name bytes fs q there free. refl;
  stat-create_directories = λ p name fs q there free. refl;
  stat-remove_all = stat-remove;
}

abbrev pub directories : Directories listed_fs
directories = record { list_dir = names_in }

abbrev delete_in : Text → List (Text × Text) → List (Text × Text)
delete_in k [] = []
delete_in k ((j, v) ∷ docs) = if text_eq j k then delete_in k docs else (j, v) ∷ delete_in k docs

pub value_at-delete :
    (k j : Text) (docs : List (Text × Text))
    → value_at j (delete_in k docs) ≡ (if text_eq k j then none else value_at j docs)
value_at-delete k j [] = ground arith
value_at-delete k j ((i, v) ∷ docs) =
    ground (arith, text_eq_iff i k, text_eq_iff k j, text_eq_iff i j, value_at-delete k j docs)

abbrev pub listed_driver : Driver
listed_driver = record {
  Coll = List (Text × Text);
  find_one = value_at;
  replace_one = λ k v c. (k, v) ∷ c;
  delete_one = delete_in;
  Unique = λ c. Unit {0};
  replace_one-Unique = λ k v c u. tt;
  delete_one-Unique = λ k c u. tt;
  find_one-replace_one = λ k v j c u. refl;
  find_one-delete_one = λ k j c u. value_at-delete k j c;
}

abbrev pub cursor : Cursor listed_driver
cursor = record { find = λ c. c; value_at-find = λ k c u. refl }
