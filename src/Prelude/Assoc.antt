-- ===== src/Prelude/Assoc.antt =====
-- `std::map` from 64-bit numbers, as an association list.
use difs.Prelude.Tests.{◌==◌, if◌then◌else◌}
use Prim.Native.Nat.{ℕ}
use mathlib.Core.Path.{◌≡◌, refl}
use mathlib.Core.Option.{Option, none, some}
use mathlib.Core.List.{List, [], ◌∷◌}
use native.Mathlib.Omega.{arith}

abbrev pub Assoc {ℓ} : Type ℓ → Type ℓ
Assoc V = List (ℕ × V)

unfoldable pub lookup {ℓ} : {V : Type ℓ} → ℕ → Assoc V → Option V
lookup k [] = none
lookup k ((j, v) ∷ m) = let rest = lookup k m in if j == k then some v else rest

-- `m[k] = v`: the first entry counts.
unfoldable pub put {ℓ} : {V : Type ℓ} → ℕ → V → Assoc V → Assoc V
put k v m = (k, v) ∷ m

unfoldable pub erase {ℓ} : {V : Type ℓ} → ℕ → Assoc V → Assoc V
erase k [] = []
erase k ((j, v) ∷ m) = let rest = erase k m in if j == k then rest else (j, v) ∷ rest

pub lookup-put {ℓ} :
    {V : Type ℓ} (j k : ℕ) (v : V) (m : Assoc V)
    → lookup k (put j v m) ≡ (if j == k then some v else lookup k m)
unfolding lookup put
lookup-put j k v m = refl

pub lookup-erase {ℓ} :
    {V : Type ℓ} (j k : ℕ) (m : Assoc V)
    → lookup k (erase j m) ≡ (if j == k then none else lookup k m)
unfolding lookup erase
lookup-erase j k [] = ground arith
lookup-erase j k ((i, v) ∷ m) = ground (arith, lookup-erase j k m)
