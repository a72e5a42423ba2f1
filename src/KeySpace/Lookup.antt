-- ===== src/KeySpace/Lookup.antt =====
-- `getManifestStorage` of keyspace-handle.cpp: the node that it names for a hash.
use difs.Prelude.{
  Text, starts_with, ℕ, zero, suc, ◌+◌, ◌-◌, ◌/◌, ◌%◌, ◌≤◌, ◌<◌, ◌≡◌, refl, sym, ap, ◌∙◌, inl, inr,
  subst, Bool-cases, true, ◌&&◌, [], ◌∷◌, ◌++◌, some, if◌then◌else◌, arith, leb, ltb, ◌==◌, All,
}
use difs.Prelude.Int.{pos, ◌-ℤ◌, to_u32}
use difs.Prelude.Hex.{hex_digit, hex_fixed, hex_go, hex}
use difs.KeySpace.{KeySpaceDoc, next, rounds, in_range, storage_of}
use difs.KeySpace.Ring.{Interval, Ring, holds, owners, IsPartition, Has}
use difs.KeySpace.Refines.{Represents}

-- What `boost::format("%02x")` makes of one digit and of two.
abbrev pub IsPadding : (Text → Text) → Type 0
IsPadding f = (a b : ℕ) → (f (a ∷ []) ≡ 48 ∷ a ∷ []) × (f (a ∷ b ∷ []) ≡ a ∷ b ∷ [])

-- The name of the first interval of a byte.
unfoldable pub owner : ℕ → Ring → Text
unfolding holds
owner b [] = []
owner b (i ∷ r) = let rest = owner b r in if holds b i then i.node else rest

pub two_digits : (n : ℕ) → hex_fixed 2 n ≡ hex_digit (n / 16 % 16) ∷ hex_digit (n % 16) ∷ []
unfolding hex_fixed
two_digits n = refl

pub short : (n : ℕ) → n < 16 → hex (pos n) ≡ hex_digit (n % 16) ∷ []
unfolding hex hex_go to_u32
short n h = ground arith

pub long :
    (n : ℕ) → n < 256 → 16 ≤ n → hex (pos n) ≡ hex_digit (n / 16 % 16) ∷ hex_digit (n % 16) ∷ []
unfolding hex hex_go to_u32
long n h k = ground arith

no_tens : (n : ℕ) → n < 16 → hex_digit (n / 16 % 16) ≡ 48
unfolding hex_digit
no_tens n h = ground arith

padded : (f : Text → Text) (n : ℕ) → IsPadding f → n < 256 → f (hex (pos n)) ≡ hex_fixed 2 n
padded f n p h = elim (Bool-cases (ltb n 16)) [
  | inl small ↦
      rw
        (
          short n (ground arith),
          (p (hex_digit (n % 16)) 0).0,
          two_digits n,
          no_tens n (ground arith),
        )
        refl
  | inr large ↦
      rw
        (
          long n h (ground arith),
          (p (hex_digit (n / 16 % 16)) (hex_digit (n % 16))).1,
          two_digits n,
        )
        refl
]

pub hex_digit-injective : (d e : ℕ) → d < 16 → e < 16 → (hex_digit d == hex_digit e) ≡ (d == e)
unfolding hex_digit
hex_digit-injective d e h k = ground arith

starts_with-two_digits :
    (n b : ℕ) (t : Text)
    → n < 256
    → b < 256
    → starts_with (hex_fixed 2 n) (hex_fixed 2 b ++ t) ≡ (n == b)
unfolding starts_with
starts_with-two_digits n b t h k =
    rw
      (
        two_digits n,
        two_digits b,
        hex_digit-injective (n / 16 % 16) (b / 16 % 16) (omega arith) (omega arith),
        hex_digit-injective (n % 16) (b % 16) (omega arith) (omega arith),
      )
      (ground arith)

pub next_pos : (n : ℕ) → next (pos n) ≡ pos (suc n)
unfolding ◌-ℤ◌
next_pos n = ground arith

in_range_lem :
    (f : Text → Text) (b : ℕ) (t : Text) (left n : ℕ)
    → IsPadding f
    → b < 256
    → n + left ≤ 256
    → in_range f left (pos n) (hex_fixed 2 b ++ t) ≡ (leb n b && ltb b (n + left))
unfolding in_range
in_range_lem f b t zero n p h k = ground arith
in_range_lem f b t (suc left) n p h k =
    rw (padded f n p (omega arith), starts_with-two_digits n b t (omega arith) h, next_pos n)
      (ground (arith, in_range_lem f b t left (suc n) p h (omega arith)))

pub rounds_pos : (lo hi : ℕ) → rounds (pos lo) (pos hi) ≡ suc hi - lo
unfolding rounds ◌-ℤ◌
rounds_pos lo hi = ground arith

in_range-holds :
    (f : Text → Text) (b : ℕ) (t : Text) (i : Interval)
    → IsPadding f
    → b < 256
    → i.hi < 256
    → i.lo < 256
    → in_range f (rounds (pos i.lo) (pos i.hi)) (pos i.lo) (hex_fixed 2 b ++ t) ≡ holds b i
unfolding holds
in_range-holds f b t i p h k l =
    rw (rounds_pos i.lo i.hi)
      (in_range_lem f b t (suc i.hi - i.lo) i.lo p h (omega arith) ∙ ground arith)

abbrev pub Bytes : Ring → Type 0
Bytes r = All (λ (i : Interval). (i.lo < 256) × (i.hi < 256)) r

storage_of-owner :
    (f : Text → Text) (b : ℕ) (t : Text) (doc : KeySpaceDoc) (r : Ring)
    → IsPadding f
    → b < 256
    → Represents doc r
    → Bytes r
    → storage_of f (hex_fixed 2 b ++ t) doc ≡ some (owner b r)
unfolding storage_of owner
storage_of-owner f b t [] [] p h k l = refl
storage_of-owner f b t [] (i ∷ r) p h k l = absurd k
storage_of-owner f b t (n ∷ ns) [] p h k l = absurd k
storage_of-owner f b t (n ∷ ns) (i ∷ r) p h k l =
    rw
      (
        k.0.1,
        k.0.2,
        in_range-holds f b t i p h ((l.0).1) ((l.0).0),
        k.0.0,
        storage_of-owner f b t ns r p h k.1 l.1,
      )
      (ground arith)

owners-Has : (b : ℕ) (i : Interval) (r : Ring) → Has i r → holds b i ≡ true → 0 < owners b r
unfolding owners
owners-Has b i [] m h = absurd m
owners-Has b i (j ∷ r) (inl e) h =
    let held : holds b j ≡ true = subst (λ (k : Interval). holds b k ≡ true) e h in
    rw held (omega arith)
owners-Has b i (j ∷ r) (inr m) h = omega (arith, owners-Has b i r m h)

owner_unique :
    (b : ℕ) (i : Interval) (r : Ring)
    → Has i r
    → holds b i ≡ true
    → owners b r ≡ 1
    → owner b r ≡ i.node
unfolding owners owner
owner_unique b i [] m h e = absurd m
owner_unique b i (j ∷ r) (inl q) h e =
    let held : holds b j ≡ true = subst (λ (k : Interval). holds b k ≡ true) q h in
    rw held (sym (ap (λ (k : Interval). k.node) q))
owner_unique b i (j ∷ r) (inr m) h e = elim (Bool-cases (holds b j)) [
  | inl held ↦ absurd (ground (arith, owners-Has b i r m h, held, e))
  | inr free ↦ rw free (owner_unique b i r m h (ground (arith, free, e)))
]

-- Where the entries are intervals of bytes, every byte has one owner, and `%02x` pads one digit and
-- leaves two as they are, a hash is kept by the node of whatever interval its first byte lies in.
pub storage_of-IsPartition :
    (f : Text → Text) (b : ℕ) (t : Text) (doc : KeySpaceDoc) (r : Ring) (i : Interval)
    → IsPadding f
    → b < 256
    → Represents doc r
    → Bytes r
    → IsPartition r
    → Has i r
    → holds b i ≡ true
    → storage_of f (hex_fixed 2 b ++ t) doc ≡ some i.node
storage_of-IsPartition f b t doc r i p h k l q m u =
    storage_of-owner f b t doc r p h k l ∙ ap (λ n. some n) (owner_unique b i r m u (q b h))
