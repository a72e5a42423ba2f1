-- ===== src/Prelude/Hex/Laws.antt =====
-- What is printed in hexadecimal reads back.
use native.Mathlib.Nat.{pow-suc}
use difs.Prelude.Tests.{ltb, Bool-cases}
use difs.Prelude.Lists.{length, All, length-append}
use difs.Prelude.Strings.{Text}
use difs.Prelude.Int.{pos}
use difs.Prelude.Hex.{
  hex_digit, hex_fixed, hex_go, hex, is_hex, hex_value, scan, starts_hex, stoi_hex, print_0x,
}
use Prim.Native.Nat.{ℕ, zero, suc, ◌+◌, ◌*◌, ◌/◌, ◌%◌, ◌^◌, ◌<◌}
use mathlib.Core.Path.{◌≡◌, refl, ap, ◌∙◌}
use mathlib.Core.Logic.{inl, inr}
use mathlib.Core.Bool.{true}
use mathlib.Core.Option.{some}
use mathlib.Core.List.{[], ◌∷◌, ◌++◌}
use native.Mathlib.Omega.{arith}

abbrev pub Digits : Text → Type 0
Digits t = All (λ c. is_hex c ≡ true) t

pub is_hex-hex_digit : (d : ℕ) → d < 16 → is_hex (hex_digit d) ≡ true
unfolding is_hex hex_digit
is_hex-hex_digit d h = ground arith

pub hex_value-hex_digit : (d : ℕ) → d < 16 → hex_value (hex_digit d) ≡ d
unfolding hex_value hex_digit
hex_value-hex_digit d h = ground arith

pub Digits-append : (xs ys : Text) → Digits xs → Digits ys → Digits (xs ++ ys)
Digits-append [] ys h k = k
Digits-append (x ∷ xs) ys h k = (h.0, Digits-append xs ys h.1 k)

pub scan-append : (acc : ℕ) (xs ys : Text) → Digits xs → scan acc (xs ++ ys) ≡ scan (scan acc xs) ys
unfolding scan
scan-append acc [] ys h = refl
scan-append acc (x ∷ xs) ys h = rw h.0 (scan-append (acc * 16 + hex_value x) xs ys h.1)

last_digit : (n : ℕ) → Digits (hex_digit (n % 16) ∷ [])
last_digit n = (is_hex-hex_digit (n % 16) (omega arith), tt)

scan_last : (acc n : ℕ) → scan acc (hex_digit (n % 16) ∷ []) ≡ acc * 16 + n % 16
unfolding scan
scan_last acc n =
    rw (is_hex-hex_digit (n % 16) (omega arith))
      (ap (λ (d : ℕ). acc * 16 + d) (hex_value-hex_digit (n % 16) (omega arith)))

-- One more digit at the end multiplies by sixteen.
scan_snoc :
    (xs : Text) (n : ℕ)
    → Digits xs
    → scan 0 (xs ++ hex_digit (n % 16) ∷ []) ≡ scan 0 xs * 16 + n % 16
scan_snoc xs n h = scan-append 0 xs (hex_digit (n % 16) ∷ []) h ∙ scan_last (scan 0 xs) n

pub hex_go-Digits : (k n : ℕ) → Digits (hex_go k n)
unfolding hex_go
hex_go-Digits zero n = last_digit n
hex_go-Digits (suc k) n = elim (Bool-cases (ltb n 16)) [
  | inl short ↦ rw short (last_digit n)
  | inr long ↦ rw long (Digits-append _ _ (hex_go-Digits k (n / 16)) (last_digit n))
]

pub scan-hex_go : (k n : ℕ) → n < 16 ^ suc k → scan 0 (hex_go k n) ≡ n
unfolding hex_go
scan-hex_go zero n h = scan_last 0 n ∙ omega arith
scan-hex_go (suc k) n h = elim (Bool-cases (ltb n 16)) [
  | inl short ↦ rw short (scan_last 0 n ∙ ground arith)
  | inr long ↦ rw long (
      scan_snoc (hex_go k (n / 16)) n (hex_go-Digits k (n / 16))
      ∙ omega (arith, scan-hex_go k (n / 16) (omega (arith, pow-suc 16 (suc k)))))
]

pub hex_fixed-Digits : (k n : ℕ) → Digits (hex_fixed k n)
unfolding hex_fixed
hex_fixed-Digits zero n = tt
hex_fixed-Digits (suc k) n = Digits-append _ _ (hex_fixed-Digits k (n / 16)) (last_digit n)

pub length-hex_fixed : (k n : ℕ) → length (hex_fixed k n) ≡ k
unfolding hex_fixed
length-hex_fixed zero n = refl
length-hex_fixed (suc k) n = omega (
  arith,
  length-append (hex_fixed k (n / 16)) (hex_digit (n % 16) ∷ []),
  length-hex_fixed k (n / 16),
)

pub scan-hex_fixed : (k n : ℕ) → n < 16 ^ k → scan 0 (hex_fixed k n) ≡ n
unfolding hex_fixed scan
scan-hex_fixed zero n h = omega arith
scan-hex_fixed (suc k) n h =
    scan_snoc (hex_fixed k (n / 16)) n (hex_fixed-Digits k (n / 16))
    ∙ omega (arith, scan-hex_fixed k (n / 16) (omega (arith, pow-suc 16 k)))

hex_go-pos : (k n : ℕ) → 0 < length (hex_go k n)
unfolding hex_go
hex_go-pos zero n = omega arith
hex_go-pos (suc k) n = elim (Bool-cases (ltb n 16)) [
  | inl short ↦ rw short (omega arith)
  | inr long ↦ rw long (omega (arith, length-append (hex_go k (n / 16)) (hex_digit (n % 16) ∷ [])))
]

starts_hex_of_Digits : (t : Text) → Digits t → 0 < length t → starts_hex t ≡ true
unfolding starts_hex
starts_hex_of_Digits [] h l = absurd (omega arith)
starts_hex_of_Digits (c ∷ t) h l = h.0

-- `stoi` of the prefix and at least one digit.
stoi_hex-0x :
    (t : Text)
    → starts_hex t ≡ true
    → scan 0 t < 2 ^ 31
    → stoi_hex (48 ∷ 120 ∷ t) ≡ some (pos (scan 0 t))
unfolding stoi_hex
stoi_hex-0x t h small = ground arith

-- A number that fits an `int` comes back from its `0x…` form.
pub stoi_hex-print_0x : (n : ℕ) → n < 2 ^ 31 → stoi_hex (print_0x (pos n)) ≡ some (pos n)
unfolding print_0x hex
stoi_hex-print_0x n h =
    let word : n % 2 ^ 32 ≡ n = omega arith in
    let value : scan 0 (hex_go 7 n) ≡ n = scan-hex_go 7 n (omega arith) in
    rw word (
      stoi_hex-0x (hex_go 7 n)
        (starts_hex_of_Digits (hex_go 7 n) (hex_go-Digits 7 n) (hex_go-pos 7 n))
        (omega (arith, value))
      ∙ ap (λ m. some (pos m)) value)
