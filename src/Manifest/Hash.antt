-- ===== src/Manifest/Hash.antt =====
-- `Manifest::getHash`.
use difs.Prelude.{Text, ℕ, zero, suc, ◌+◌, ◌*◌, ◌≡◌, [], ◌++◌, length, length-append, arith}
use difs.Prelude.Hex.{hex_fixed}
use difs.Prelude.Hex.Laws.{Digits, Digits-append, hex_fixed-Digits, length-hex_fixed}
use difs.Manifest.{hash_words, hash_of}

hash_words-Digits :
    (left i : ℕ) (block : ℕ → ℕ) (r : Text) → Digits r → Digits (hash_words left i block r)
unfolding hash_words
hash_words-Digits zero i block r h = h
hash_words-Digits (suc left) i block r h =
    hash_words-Digits left (suc i) block _ (Digits-append r _ h (hex_fixed-Digits 8 (block i)))

length-hash_words :
    (left i : ℕ) (block : ℕ → ℕ) (r : Text)
    → length (hash_words left i block r) ≡ left * 8 + length r
unfolding hash_words
length-hash_words zero i block r = omega arith
length-hash_words (suc left) i block r = omega (
  arith,
  length-hash_words left (suc i) block (r ++ hex_fixed 8 (block i)),
  length-append r (hex_fixed 8 (block i)),
  length-hex_fixed 8 (block i),
)

module _ (sha1 : Text → ℕ → ℕ) where
  -- The hash of any name is forty hexadecimal digits.
  pub hash_of-Digits :
      (name : Text) → (length (hash_of sha1 name) ≡ 40) × Digits (hash_of sha1 name)
  unfolding hash_of
  hash_of-Digits name =
      (length-hash_words 5 0 (sha1 name) [], hash_words-Digits 5 0 (sha1 name) [] tt)
