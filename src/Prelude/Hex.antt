-- ===== src/Prelude/Hex.antt =====
-- The standard library's hexadecimal: `std::hex` on a stream, `%08x`, and `std::stoi(s, 0, 16)`.
pub mod Laws
use native.Mathlib.Nat.{pow-suc}
use mathlib.Core.List.{append_assoc}
use difs.Prelude.Tests.{ltb, leb, ◌==◌, if◌then◌else◌, Bool-cases}
use difs.Prelude.Lists.{length, All, length-append}
use difs.Prelude.Strings.{Text}
use difs.Prelude.Int.{ℤ, pos, negsuc, sub_ℕ, to_u32}
use Prim.Native.Nat.{ℕ, zero, suc, ◌+◌, ◌-◌, ◌*◌, ◌/◌, ◌%◌, ◌^◌, ◌≤◌, ◌<◌}
use mathlib.Core.Path.{◌≡◌, refl, ap, ◌∙◌}
use mathlib.Core.Logic.{inl, inr}
use mathlib.Core.Bool.{Bool, true, false, ◌&&◌, ◌||◌}
use mathlib.Core.Option.{Option, none, some}
use mathlib.Core.List.{List, [], ◌∷◌, ◌++◌}
use native.Mathlib.Omega.{arith}

unfoldable pub hex_digit : ℕ → ℕ
hex_digit d = if ltb d 10 then 48 + d else 87 + d

-- `%0kx`: the last `k` digits, with leading zeros.
unfoldable pub hex_fixed : ℕ → ℕ → Text
unfolding hex_digit
hex_fixed zero n = []
hex_fixed (suc k) n = hex_fixed k (n / 16) ++ hex_digit (n % 16) ∷ []

-- The digits of `n` with no leading zero, at most `k + 1` of them.
unfoldable pub hex_go : ℕ → ℕ → Text
unfolding hex_digit
hex_go zero n = hex_digit (n % 16) ∷ []
hex_go (suc k) n =
    let more = hex_go k (n / 16) ++ hex_digit (n % 16) ∷ [] in
    if ltb n 16 then hex_digit (n % 16) ∷ [] else more

-- `stream << std::hex << i` of an `int`, printed as the unsigned word that it is.
unfoldable pub hex : ℤ → Text
unfolding to_u32
hex i = hex_go 7 (to_u32 i)

unfoldable pub is_hex : ℕ → Bool
is_hex c = (leb 48 c && leb c 57) || (leb 97 c && leb c 102) || (leb 65 c && leb c 70)

unfoldable pub hex_value : ℕ → ℕ
hex_value c = if leb c 57 then c - 48 else if leb c 70 then c - 55 else c - 87

-- `strtol`: the digits up to the first other character.
unfoldable pub scan : ℕ → Text → ℕ
unfolding is_hex hex_value
scan acc [] = acc
scan acc (c ∷ t) = let more = scan (acc * 16 + hex_value c) t in if is_hex c then more else acc

unfoldable pub starts_hex : Text → Bool
unfolding is_hex
starts_hex [] = false
starts_hex (c ∷ t) = is_hex c

-- An optional `0x` or `0X`, taken only where a digit follows.
unfoldable pub strip_0x : Text → Text
unfolding starts_hex
strip_0x (a ∷ b ∷ t) = if a == 48 && (b == 120 || b == 88) && starts_hex t then t else a ∷ b ∷ t
strip_0x t = t

unfoldable pub skip_space : Text → Text
skip_space [] = []
skip_space (c ∷ t) =
    let more = skip_space t in if c == 32 || (leb 9 c && leb c 13) then more else c ∷ t

-- `none` is `std::invalid_argument` (no digits) or `std::out_of_range` (no `int`).
unfoldable pub stoi_digits : Bool → Text → Option ℤ
unfolding strip_0x
stoi_digits negative s =
    let t = strip_0x s in
    let n = scan 0 t in
    if starts_hex t
    then (if leb n (if negative then 2 ^ 31 else 2 ^ 31 - 1)
        then some (if negative then sub_ℕ 0 n else pos n)
        else none)
    else none

unfoldable pub stoi_signed : Text → Option ℤ
unfolding stoi_digits
stoi_signed [] = none
stoi_signed (c ∷ t) =
    if c == 45
    then stoi_digits true t
    else if c == 43
    then stoi_digits false t
    else stoi_digits false (c ∷ t)

unfoldable pub stoi_hex : Text → Option ℤ
unfolding skip_space stoi_signed
stoi_hex s = stoi_signed (skip_space s)

-- What `"0x" << std::hex << n` prints.
unfoldable pub print_0x : ℤ → Text
print_0x i = 48 ∷ 120 ∷ hex i
