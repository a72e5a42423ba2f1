-- ===== src/Examples/Tree.antt =====
-- Property trees as a data type, in a self-delimiting text format.
use mathlib.Core.List.{append_assoc, append-nil}
use difs.Prelude.{
  Text, ℕ, zero, suc, ◌+◌, ◌≤◌, ◌==◌, ◌≡◌, refl, sym, ap, ◌∙◌, true, List, [], ◌∷◌, ◌++◌, Option,
  none, some, length, length-append, if◌then◌else◌, arith,
}
use difs.Prelude.Int.{ℤ, pos}
use difs.Json.{◌>>=◌}
use difs.Daemon.Libraries.{is_key, first_section, PropertyTree, Names}
use difs.Examples.Format.{Format, text, pair}

-- Sections side by side: a key, its data, what is below it, and what comes after it.
pub data Forest : Type 0 where
  nothing : Forest
  section : Text → Text → Forest → Forest → Forest

abbrev pub Tree : Type 0
Tree = Text × Forest

abbrev forest_of : List (Text × Tree) → Forest
forest_of [] = nothing
forest_of ((k, (d, below)) ∷ l) = section k d below (forest_of l)

abbrev list_of : Forest → List (Text × Tree)
list_of nothing = []
list_of (section k d below next) = (k, (d, below)) ∷ list_of next

pub list_of-forest_of : (l : List (Text × Tree)) → list_of (forest_of l) ≡ l
list_of-forest_of [] = refl
list_of-forest_of ((k, (d, below)) ∷ l) = ap (λ m. (k, (d, below)) ∷ m) (list_of-forest_of l)

-- A path as its keys.
abbrev push : ℕ → List Text → List Text
push c [] = (c ∷ []) ∷ []
push c (k ∷ ks) = (c ∷ k) ∷ ks

abbrev keys : Text → List Text
keys [] = [] ∷ []
keys (c ∷ t) = let rest = keys t in if c == 46 then [] ∷ rest else push c rest

abbrev descend : List Text → Tree → Option Tree
descend [] t = some t
descend (k ∷ ks) t = do u ← first_section k (list_of t.1); descend ks u

abbrev get_child : Text → Tree → Option Tree
get_child path t = descend (keys path) t

keys-key : (k : Text) → is_key k ≡ true → keys k ≡ k ∷ []
unfolding is_key
keys-key [] h = refl
keys-key (c ∷ k) h = ground (arith, keys-key k)

keys-path : (k p : Text) → is_key k ≡ true → keys (k ++ 46 ∷ p) ≡ k ∷ keys p
unfolding is_key
keys-path [] p h = refl
keys-path (c ∷ k) p h = ground (arith, keys-path k p)

some-bind : {A : Type 0} (o : Option A) → (o >>= λ a. some a) ≡ o
some-bind none = refl
some-bind (some a) = refl

pub get_child-first :
    (k : Text) (t : Tree) → is_key k ≡ true → get_child k t ≡ first_section k (list_of t.1)
get_child-first k t h = rw (keys-key k h) (some-bind (first_section k (list_of t.1)))

pub get_child-path :
    (k p : Text) (t u : Tree)
    → is_key k ≡ true
    → get_child k t ≡ some u
    → get_child (k ++ 46 ∷ p) t ≡ get_child p u
get_child-path k p t u h e = rw (keys-path k p h) rw (sym (get_child-first k t h) ∙ e) refl

module _ (f : Format (Text × Text)) where
  abbrev print_forest : Forest → Text
  print_forest nothing = 0 ∷ []
  print_forest (section k d below next) =
      1 ∷ (f.print (k, d) ++ (print_forest below ++ print_forest next))

  abbrev parse_forest : ℕ → Text → Option (Forest × Text)
  parse_forest zero t = none
  parse_forest (suc fuel) [] = none
  parse_forest (suc fuel) (zero ∷ t) = some (nothing, t)
  parse_forest (suc fuel) (suc n ∷ t) = do
    ((k, d), r) ← f.parse t
    (below, s) ← parse_forest fuel r
    (next, u) ← parse_forest fuel s
    some (section k d below next, u)

  pub parse_forest_lem :
      (fuel : ℕ) (t : Forest) (rest : Text)
      → length (print_forest t) ≤ fuel
      → parse_forest fuel (print_forest t ++ rest) ≡ some (t, rest)
  parse_forest_lem zero nothing rest h = absurd (omega arith)
  parse_forest_lem zero (section k d below next) rest h = absurd (omega arith)
  parse_forest_lem (suc fuel) nothing rest h = refl
  parse_forest_lem (suc fuel) (section k d below next) rest h =
      let b = print_forest below in
      let n = print_forest next in
      let head = f.print (k, d) in
      let whole : length head + (length b + length n) ≤ fuel =
        omega (arith, h, length-append head (b ++ n), length-append b n) in
      rw
        (
          append_assoc head (b ++ n) rest,
          f.parse-print (k, d) ((b ++ n) ++ rest),
          append_assoc b n rest,
          parse_forest_lem fuel below (n ++ rest) (omega (arith, whole)),
          parse_forest_lem fuel next rest (omega (arith, whole)),
        )
        refl

  abbrev write_info : Tree → Text
  write_info (d, t) = f.print (d, []) ++ print_forest t

  abbrev read_info : Text → Option Tree
  read_info t = do ((d, e), r) ← f.parse t; (u, s) ← parse_forest (length r) r; some (d, u)

  parse_whole :
      (t : Forest) → parse_forest (length (print_forest t)) (print_forest t) ≡ some (t, [])
  parse_whole t =
      let p = print_forest t in
      ap (parse_forest (length p)) (sym (append-nil p))
      ∙ parse_forest_lem (length p) t [] (omega arith)

  pub read_info_lem : (t : Tree) → read_info (write_info t) ≡ some t
  read_info_lem (d, t) = rw (f.parse-print (d, []) (print_forest t), parse_whole t) refl

abbrev read_int : Text → Option ℤ
read_int [] = none
read_int (n ∷ t) = some (pos n)

abbrev read_uint64 : Text → Option ℕ
read_uint64 [] = none
read_uint64 (n ∷ t) = some n

abbrev pub trees : PropertyTree
trees = record {
  Ptree = Tree;
  node = λ d l. (d, forest_of l);
  sections = λ t. list_of t.1;
  get_string = λ t. t.0;
  get_int = λ t. read_int t.0;
  get_uint64 = λ t. read_uint64 t.0;
  get_child = get_child;
  print_number = λ n. n ∷ [];
  write_info = write_info (pair text text);
  read_info = read_info (pair text text);
  sections-node = λ d l. list_of-forest_of l;
  get_string-node = λ d l. refl;
  get_int-print_number = λ n l h. refl;
  get_uint64-print_number = λ n l h. refl;
  get_child-first = get_child-first;
  get_child-path = get_child-path;
  read-write = read_info_lem (pair text text);
}

-- Names are read as they are, unless they are empty.
abbrev make_name : Text → Option Text
make_name [] = none
make_name (c ∷ t) = some (c ∷ t)

abbrev pub names : Names
names = record { make_name = make_name; append = λ a b. a ++ b }
