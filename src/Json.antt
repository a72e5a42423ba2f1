-- ===== src/Json.antt =====
-- Boost.PropertyTree with its JSON writer and reader, as the program uses it: a document is what
-- a chain of `put` calls on fixed keys builds, and what `get` finds under those keys.
use difs.Prelude.{Text, ◌≡◌, ◌≢◌, Option, none, some, []}

-- The writer and the reader are parameters. A document that is written reads back, and its text
-- is never empty.
pub record JsonCodec (Doc : Type 0) : Type 0 where
  pub write_json : Doc → Text
  -- `none` is `json_parser_error`.
  pub read_json : Text → Option Doc
  pub read-write : (d : Doc) → read_json (write_json d) ≡ some d
  pub write-ne-nil : (d : Doc) → write_json d ≢ []

-- A `get` that may throw `ptree_error`, and what follows it.
infixl 5 ◌>>=◌
abbrev pub ◌>>=◌ {ℓ κ} : {A : Type ℓ} {B : Type κ} → Option A → (A → Option B) → Option B
none >>= f = none
some a >>= f = f a
