-- ===== src/Prelude/Strings.antt =====
-- `std::string` as the list of its bytes, with equality, prefixes and `substr`.
use Prim.Native.Nat.{ℕ, zero, suc}
use Prim.Native.Char.{code}
use Prim.Native.String.{String}
use mathlib.Core.Path.{◌≡◌, refl, sym, ap, ◌∙◌}
use mathlib.Core.Logic.{◌↔◌}
use mathlib.Core.Bool.{Bool, true, false, ◌&&◌, ◌||◌}
use mathlib.Core.List.{List, [], ◌∷◌, ◌++◌}
use native.Mathlib.Omega.{arith}
use difs.Prelude.Tests.{◌==◌}
use difs.Prelude.Lists.{take, drop}

abbrev pub Text : Type 0
Text = List ℕ

-- The bytes of a literal.
abbrev pub codes : String → Text
codes String.[] = []
codes (String.◌∷◌ c s) = code c ∷ codes s

-- `a == b` of two strings.
unfoldable pub text_eq : Text → Text → Bool
text_eq [] [] = true
text_eq (x ∷ a) (y ∷ b) = x == y && text_eq a b
text_eq _ _ = false

pub text_eq_refl : (a : Text) → text_eq a a ≡ true
unfolding text_eq
text_eq_refl [] = refl
text_eq_refl (x ∷ a) = ground (arith, text_eq_refl a)

pub text_eq→eq : (a b : Text) → text_eq a b ≡ true → a ≡ b
unfolding text_eq
text_eq→eq [] [] h = refl
text_eq→eq [] (y ∷ b) h = cc
text_eq→eq (x ∷ a) [] h = cc
text_eq→eq (x ∷ a) (y ∷ b) h = ground (arith, text_eq→eq a b)

pub text_eq_iff : (a b : Text) → (text_eq a b ≡ true) ↔ (a ≡ b)
text_eq_iff a b = (text_eq→eq a b, λ e. rw e (text_eq_refl b))

-- Whether a text is in a list.
abbrev pub among : Text → List Text → Bool
among x [] = false
among x (y ∷ ys) = text_eq y x || among x ys

pub among-append : (x : Text) (xs ys : List Text) → among x (xs ++ ys) ≡ (among x xs || among x ys)
among-append x [] ys = refl
among-append x (z ∷ xs) ys =
    ap (λ b. text_eq z x || b) (among-append x xs ys)
    ∙ sym (or_assoc (text_eq z x) (among x xs) (among x ys))
  where
    or_assoc : (a b c : Bool) → ((a || b) || c) ≡ (a || (b || c))
    or_assoc true b c = refl
    or_assoc false b c = refl

-- `!strncmp(s, p, p.length())`: the text starts with `p`.
unfoldable pub starts_with : Text → Text → Bool
starts_with [] s = true
starts_with (x ∷ p) [] = false
starts_with (x ∷ p) (y ∷ s) = x == y && starts_with p s

-- Texts are equal exactly if they agree on their first `n` bytes and on the rest.
pub text_eq-split :
    (n : ℕ) (a b : Text)
    → (text_eq (take n a) (take n b) && text_eq (drop n a) (drop n b)) ≡ text_eq a b
unfolding text_eq
text_eq-split zero a b = refl
text_eq-split (suc n) [] [] = refl
text_eq-split (suc n) [] (y ∷ b) = refl
text_eq-split (suc n) (x ∷ a) [] = refl
text_eq-split (suc n) (x ∷ a) (y ∷ b) = ground (arith, text_eq-split n a b)
