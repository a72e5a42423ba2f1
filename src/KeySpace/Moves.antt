-- ===== src/KeySpace/Moves.antt =====
-- The manifests that a new node asks the old one for, and later tells it to delete.
use difs.Prelude.{
  Text, starts_with, ℕ, zero, suc, ◌+◌, ◌-◌, ◌/◌, ◌%◌, ◌≤◌, ◌<◌, ◌≡◌, refl, sym, ap, ◌∙◌, inl, inr,
  Bool, Bool-cases, true, false, ◌&&◌, List, [], ◌∷◌, ◌++◌, map, some, if◌then◌else◌, arith, leb,
  ltb, ◌==◌, length,
}
use mathlib.Core.List.{append-nil, map-append}
use difs.Prelude.Int.{ℤ, pos}
use difs.Prelude.Hex.{hex_fixed, hex}
use difs.Json.{JsonCodec}
use difs.KeySpace.{next, rounds}
use difs.KeySpace.Lookup.{short, long, two_digits, hex_digit-injective, next_pos, rounds_pos}
use difs.KeySpace.Handle.{
  KeySpaceHandle, Sent, asked_manifest, asked_complete, asked_delete_manifest, done, c_text,
  matches, for_names, on_manifest_list_command_response, on_complete_command_response,
}

-- One digit is a prefix of every hash that starts with it.
pub starts_with-hex :
    (n b : ℕ) (t : Text)
    → n < 256
    → b < 256
    → starts_with (hex (pos n)) (hex_fixed 2 b ++ t) ≡ (if ltb n 16 then n == b / 16 else n == b)
unfolding starts_with
starts_with-hex n b t h k = elim (Bool-cases (ltb n 16)) [
  | inl small ↦
      rw
        (
          short n (ground arith),
          two_digits b,
          hex_digit-injective (n % 16) (b / 16 % 16) (omega arith) (omega arith),
        )
        (ground arith)
  | inr large ↦
      rw
        (
          long n h (ground arith),
          two_digits b,
          hex_digit-injective (n / 16 % 16) (b / 16 % 16) (omega arith) (omega arith),
          hex_digit-injective (n % 16) (b % 16) (omega arith) (omega arith),
        )
        (ground arith)
]

length-if :
    (x : Bool) (sent : Sent) (rest : List Sent)
    → length (if x then sent ∷ rest else rest) ≡ (if x then 1 else 0) + length rest
length-if true sent rest = omega arith
length-if false sent rest = omega arith

-- The numbers from `n` on, `left` of them.
abbrev pub within : ℕ → ℕ → ℕ → Bool
within n left x = leb n x && ltb x (n + left)

-- One number more, among those of one digit and among the others.
one_digit :
    (d n left : ℕ)
    → d < 16
    → (if within n (suc left) d then 1 else 0)
      ≡ (if ltb n 16 && n == d then 1 else 0) + (if within (suc n) left d then 1 else 0)
one_digit d n left h = ground arith

two_digit :
    (b n left : ℕ)
    → (if leb 16 b && within n (suc left) b then 1 else 0)
      ≡ (if leb 16 n && n == b then 1 else 0) + (if leb 16 b && within (suc n) left b then 1 else 0)
two_digit b n left = ground arith

either_digits :
    (n d b : ℕ)
    → (if (if ltb n 16 then n == d else n == b) then 1 else 0)
      ≡ (if leb 16 n && n == b then 1 else 0) + (if ltb n 16 && n == d then 1 else 0)
either_digits n d b = ground arith

length-matches :
    (b : ℕ) (t : Text) (sent : Sent) (left n : ℕ)
    → b < 256
    → n + left ≤ 256
    → length (matches left (pos n) (hex_fixed 2 b ++ t) sent)
      ≡ (if leb 16 b && within n left b then 1 else 0) + (if within n left (b / 16) then 1 else 0)
unfolding matches
length-matches b t sent zero n h k = ground arith
length-matches b t sent (suc left) n h k =
    rw (starts_with-hex n b t (omega arith) h, next_pos n)
      (length-if (if ltb n 16 then n == b / 16 else n == b) sent
          (matches left (pos (suc n)) (hex_fixed 2 b ++ t) sent)
        ∙ omega (
          arith,
          length-matches b t sent left (suc n) h (omega arith),
          one_digit (b / 16) n left (omega arith),
          two_digit b n left,
          either_digits n (b / 16) b,
        ))

pub up_to : (lo hi x : ℕ) → lo ≤ hi → within lo (suc hi - lo) x ≡ (leb lo x && leb x hi)
up_to lo hi x h = ground arith

-- How often a node with the range of bytes from `lo` to `hi`, which is not empty, asks for a hash:
-- once for its first byte, if that is 16 or more and lies in the range, and once for its first
-- digit, if that does.
pub for_names-count :
    (sent : Text → Sent) (b lo hi : ℕ) (t : Text)
    → b < 256
    → lo ≤ hi
    → hi < 256
    → length (for_names sent (pos lo) (pos hi) ((hex_fixed 2 b ++ t) ∷ []))
      ≡ (if leb 16 b && (leb lo b && leb b hi) then 1 else 0)
        + (if leb lo (b / 16) && leb (b / 16) hi then 1 else 0)
unfolding for_names
for_names-count sent b lo hi t h k l =
    let name = hex_fixed 2 b ++ t in
    rw (rounds_pos lo hi, append-nil (matches (suc hi - lo) (pos lo) name (sent name)))
      (length-matches b t (sent name) (suc hi - lo) lo h (omega arith)
        ∙ rw (up_to lo hi b k, up_to lo hi (b / 16) k) refl)

-- The names that the loops pick, whatever they send for each.
unfoldable pub picks : ℕ → ℤ → Text → List Text
picks zero start name = []
picks (suc left) start name =
    let rest = picks left (next start) name in
    if starts_with (hex start) name then name ∷ rest else rest

unfoldable pub picked : ℤ → ℤ → List Text → List Text
unfolding picks
picked start end [] = []
picked start end (name ∷ names) = picks (rounds start end) start name ++ picked start end names

matches-picks :
    (f : Text → Sent) (left : ℕ) (start : ℤ) (name : Text)
    → matches left start name (f name) ≡ map f (picks left start name)
unfolding matches picks
matches-picks f zero start name = refl
matches-picks f (suc left) start name = elim (Bool-cases (starts_with (hex start) name)) [
  | inl hit ↦ rw hit (ap (λ l. f name ∷ l) (matches-picks f left (next start) name))
  | inr miss ↦ rw miss (matches-picks f left (next start) name)
]

for_names-picked :
    (f : Text → Sent) (start end : ℤ) (names : List Text)
    → for_names f start end names ≡ map f (picked start end names)
unfolding for_names picked
for_names-picked f start end [] = refl
for_names-picked f start end (name ∷ names) =
    rw (matches-picks f (rounds start end) start name, for_names-picked f start end names)
      (sym (map-append f (picks (rounds start end) start name) (picked start end names)))

module _ (lists : JsonCodec (List Text)) where
  -- A node that gets a list of manifests asks the old node for some of them and then sends its
  -- confirmation; once that is answered it tells the old node to delete the same manifests, in the
  -- same order.
  pub on_complete-on_manifest_list :
      (h : KeySpaceHandle) (c : ℕ) (content : Text) (names : List Text)
      → lists.read_json (c_text (c ∷ content)) ≡ some names
      → (on_manifest_list_command_response lists (c ∷ content) h
          ≡ done
              (record h { manifest_list = c_text (c ∷ content) })
              (map (asked_manifest h.from) (picked h.start h.end names)
                ++ asked_complete h.manager_prefix ∷ []))
        × (on_complete_command_response lists (record h { manifest_list = c_text (c ∷ content) })
            ≡ done
                (record h { manifest_list = c_text (c ∷ content) })
                (map (asked_delete_manifest h.from) (picked h.start h.end names)))
  unfolding on_manifest_list_command_response on_complete_command_response
  on_complete-on_manifest_list h c content names e = (
    rw (e, for_names-picked (asked_manifest h.from) h.start h.end names) refl,
    rw (e, for_names-picked (asked_delete_manifest h.from) h.start h.end names) refl,
  )
