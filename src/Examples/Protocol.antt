-- ===== src/Examples/Protocol.antt =====
-- One choice of the encodings between the nodes: a TLV whose numbers take one element each, and
-- the JSON of key spaces and of lists of names.
use difs.Prelude.{
  Text, ℕ, zero, suc, ◌≤◌, ◌≡◌, refl, List, [], ◌∷◌, Option, none, some, length, take, drop,
  take-append, drop-append, length-append, arith,
}
use difs.Json.{JsonCodec, ◌>>=◌}
use difs.Tlv.{Element, Tlv, block_bytes, join_blocks}
use difs.KeySpace.{NodeDoc, KeySpaceDoc}
use difs.Examples.Format.{Format, text, pair, convert, list, codec}

abbrev one : ℕ → Text
one n = n ∷ []

abbrev read_one : Text → Option ℕ
read_one [] = none
read_one (n ∷ t) = some n

abbrev parse_elements : ℕ → Text → Option (List Element)
parse_elements fuel [] = some []
parse_elements zero (t ∷ r) = none
parse_elements (suc fuel) (type ∷ []) = none
parse_elements (suc fuel) (type ∷ size ∷ r) = do
  es ← parse_elements fuel (drop size r)
  some (record { type = type; value = take size r } ∷ es)

pub parse_elements_lem :
    (fuel : ℕ) (es : List Element)
    → length es ≤ fuel
    → parse_elements fuel (join_blocks one es) ≡ some es
parse_elements_lem zero [] h = refl
parse_elements_lem (suc fuel) [] h = refl
parse_elements_lem zero (e ∷ es) h = absurd (omega arith)
parse_elements_lem (suc fuel) (e ∷ es) h =
    rw
      (
        take-append e.value (join_blocks one es),
        drop-append e.value (join_blocks one es),
        parse_elements_lem fuel es (omega arith),
      )
      refl

abbrev parse : Text → Option (ℕ × List Element)
parse [] = none
parse (type ∷ []) = none
parse (type ∷ size ∷ r) = do es ← parse_elements size r; some (type, es)

length-join_blocks : (es : List Element) → length es ≤ length (join_blocks one es)
length-join_blocks [] = omega arith
length-join_blocks (e ∷ es) =
    omega (arith, length-join_blocks es, length-append e.value (join_blocks one es))

pub parse_lem :
    (type : ℕ) (es : List Element)
    → parse (block_bytes one type (join_blocks one es)) ≡ some (type, es)
parse_lem type es =
    rw (parse_elements_lem (length (join_blocks one es)) es (length-join_blocks es)) refl

abbrev pub tlv : Tlv
tlv = record {
  var_number = one;
  nonneg = one;
  name_value = λ n. n;
  hint_value = λ h. h;
  read_nonneg = read_one;
  read_name = some;
  read_hint = some;
  parse_block = parse;
  read-nonneg = λ n h. refl;
  read-name = λ n. refl;
  read-hint = λ h. refl;
  parse-block = parse_lem;
}

abbrev node_doc : Format NodeDoc
node_doc =
    convert (pair text (pair text text)) (λ d. (d.node, (d.start, d.end)))
      (λ t. record { node = t.0; start = t.1.0; end = t.1.1 }) (λ d. refl)

abbrev pub key_space_json : JsonCodec KeySpaceDoc
key_space_json = codec (list node_doc)

abbrev pub names_json : JsonCodec (List Text)
names_json = codec (list text)
