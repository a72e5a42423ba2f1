-- ===== src/Examples/Format.antt =====
-- A self-delimiting text format, built by combinators, with its round trip.
use mathlib.Core.List.{append_assoc, append-nil}
use difs.Prelude.{
  Text, ℕ, zero, suc, ◌≡◌, ◌≢◌, refl, List, [], ◌∷◌, ◌++◌, Option, none, some, length, take, drop,
  take-append, drop-append,
}
use difs.Prelude.Int.{ℤ, pos, negsuc}
use difs.Json.{JsonCodec, ◌>>=◌}

pub record Format (A : Type 0) : Type 0 where
  pub print : A → Text
  pub parse : Text → Option (A × Text)
  pub parse-print : (a : A) (rest : Text) → parse (print a ++ rest) ≡ some (a, rest)

abbrev parse_number : Text → Option (ℕ × Text)
parse_number [] = none
parse_number (n ∷ t) = some (n, t)

abbrev pub number : Format ℕ
number = record { print = λ n. n ∷ []; parse = parse_number; parse-print = λ n rest. refl }

abbrev parse_text : Text → Option (Text × Text)
parse_text [] = none
parse_text (n ∷ t) = some (take n t, drop n t)

pub parse_text_lem : (a rest : Text) → parse_text (length a ∷ (a ++ rest)) ≡ some (a, rest)
parse_text_lem a rest = rw (take-append a rest, drop-append a rest)

abbrev pub text : Format Text
text = record { print = λ a. length a ∷ a; parse = parse_text; parse-print = parse_text_lem }

module _ {A B : Type 0} (f : Format A) (g : Format B) where
  abbrev print_pair : A × B → Text
  print_pair (a, b) = f.print a ++ g.print b

  abbrev parse_pair : Text → Option ((A × B) × Text)
  parse_pair t = do (a, r) ← f.parse t; (b, s) ← g.parse r; some ((a, b), s)

  pub parse_pair_lem :
      (p : A × B) (rest : Text) → parse_pair (print_pair p ++ rest) ≡ some (p, rest)
  parse_pair_lem (a, b) rest = rw (
    append_assoc (f.print a) (g.print b) rest,
    f.parse-print a (g.print b ++ rest),
    g.parse-print b rest,
  )

  abbrev pub pair : Format (A × B)
  pair = record { print = print_pair; parse = parse_pair; parse-print = parse_pair_lem }

-- A type that is another one under a pair of conversions.
module _ {A B : Type 0} (f : Format A) (to : B → A) (from : A → B)
    (back : (b : B) → from (to b) ≡ b) where
  abbrev parse_as : Text → Option (B × Text)
  parse_as t = do (a, r) ← f.parse t; some (from a, r)

  pub parse_as_lem : (b : B) (rest : Text) → parse_as (f.print (to b) ++ rest) ≡ some (b, rest)
  parse_as_lem b rest = rw (f.parse-print (to b) rest, back b)

  abbrev pub convert : Format B
  convert = record { print = λ b. f.print (to b); parse = parse_as; parse-print = parse_as_lem }

module _ {A : Type 0} (f : Format A) where
  abbrev print_option : Option A → Text
  print_option none = 0 ∷ []
  print_option (some a) = 1 ∷ f.print a

  abbrev parse_option : Text → Option (Option A × Text)
  parse_option [] = none
  parse_option (zero ∷ t) = some (none, t)
  parse_option (suc n ∷ t) = do (a, r) ← f.parse t; some (some a, r)

  pub parse_option_lem :
      (o : Option A) (rest : Text) → parse_option (print_option o ++ rest) ≡ some (o, rest)
  parse_option_lem none rest = refl
  parse_option_lem (some a) rest = rw (f.parse-print a rest)

  abbrev pub option : Format (Option A)
  option = record { print = print_option; parse = parse_option; parse-print = parse_option_lem }

  abbrev print_all : List A → Text
  print_all [] = []
  print_all (a ∷ l) = f.print a ++ print_all l

  abbrev parse_all : ℕ → Text → Option (List A × Text)
  parse_all zero t = some ([], t)
  parse_all (suc n) t = do (a, r) ← f.parse t; (l, s) ← parse_all n r; some (a ∷ l, s)

  pub parse_all_lem :
      (l : List A) (rest : Text) → parse_all (length l) (print_all l ++ rest) ≡ some (l, rest)
  parse_all_lem [] rest = refl
  parse_all_lem (a ∷ l) rest = rw (
    append_assoc (f.print a) (print_all l) rest,
    f.parse-print a (print_all l ++ rest),
    parse_all_lem l rest,
  )

  abbrev parse_list : Text → Option (List A × Text)
  parse_list [] = none
  parse_list (n ∷ t) = parse_all n t

  abbrev pub list : Format (List A)
  list = record {
    print = λ l. length l ∷ print_all l;
    parse = parse_list;
    parse-print = parse_all_lem;
  }

  -- As a JSON codec: an opening brace and the value.
  abbrev read_whole : Text → Option A
  read_whole [] = none
  read_whole (c ∷ t) = do (a, r) ← f.parse t; some a

  pub read_whole_lem : (a : A) → read_whole (123 ∷ f.print a) ≡ some a
  read_whole_lem a = rw (append-nil (f.print a)) at (whole a)
    where
      whole : (a : A) → read_whole (123 ∷ (f.print a ++ [])) ≡ some a
      whole a = rw (f.parse-print a [])

  pub opens_with_brace : (a : A) → (123 ∷ f.print a) ≢ []
  opens_with_brace a e = cc

  abbrev pub codec : JsonCodec A
  codec = record {
    write_json = λ a. 123 ∷ f.print a;
    read_json = read_whole;
    read-write = read_whole_lem;
    write-ne-nil = opens_with_brace;
  }

abbrev sign : ℤ → ℕ × ℕ
sign (pos n) = (0, n)
sign (negsuc n) = (1, n)

abbrev signed : ℕ × ℕ → ℤ
signed (zero, n) = pos n
signed (suc s, n) = negsuc n

pub signed-sign : (i : ℤ) → signed (sign i) ≡ i
signed-sign (pos n) = refl
signed-sign (negsuc n) = refl

abbrev pub integer : Format ℤ
integer = convert (pair number number) sign signed signed-sign
