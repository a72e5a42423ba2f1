-- ===== src/Tlv.antt =====
-- The TLV encoding of ndn-cxx as the command packets use it: `EncodingImpl`, `Block` and
-- `readNonNegativeInteger`. It is a parameter; the part of the encoder that counts bytes is
-- written out, since the packets add the counts up themselves.
pub mod Fields
use difs.Prelude.{Text, ℕ, ◌+◌, ◌^◌, ◌<◌, ◌≡◌, List, [], ◌∷◌, ◌++◌, Option, some, length}

-- An element of a block: its type and its value.
pub record Element : Type 0 where
  pub type : ℕ
  pub value : Text

-- The bytes of a block: type, length, value.
abbrev pub block_bytes : (ℕ → Text) → ℕ → Text → Text
block_bytes var_number type value = var_number type ++ (var_number (length value) ++ value)

abbrev pub join_blocks : (ℕ → Text) → List Element → Text
join_blocks var_number [] = []
join_blocks var_number (e ∷ es) = block_bytes var_number e.type e.value ++ join_blocks var_number es

pub record Tlv : Type 0 where
  pub var_number : ℕ → Text
  -- The value of a non-negative integer, and of the `Name` and `ForwardingHint` blocks.
  pub nonneg : ℕ → Text
  pub name_value : Text → Text
  pub hint_value : Text → Text
  -- `none` is a `tlv::Error`.
  pub read_nonneg : Text → Option ℕ
  pub read_name : Text → Option Text
  pub read_hint : Text → Option Text
  -- The type and the elements of a block, after `parse`.
  pub parse_block : Text → Option (ℕ × List Element)
  pub read-nonneg : (n : ℕ) → n < 2 ^ 64 → read_nonneg (nonneg n) ≡ some n
  pub read-name : (n : Text) → read_name (name_value n) ≡ some n
  pub read-hint : (h : Text) → read_hint (hint_value h) ≡ some h
  pub parse-block :
      (type : ℕ) (es : List Element)
      → parse_block (block_bytes var_number type (join_blocks var_number es)) ≡ some (type, es)

-- `EncodingBuffer`, which grows at the front, and `totalLength`.
pub record Encoder : Type 0 where
  pub total : ℕ
  pub buffer : Text

-- One `totalLength += encoder.prepend…(…)`.
abbrev pub prepend : Text → Encoder → Encoder
prepend bytes e = record { total = e.total + length bytes; buffer = bytes ++ e.buffer }

abbrev pub start : Encoder
start = record { total = 0; buffer = [] }

module _ (T : Tlv) where
  open T use {var_number, nonneg}

  -- The four lines that write an integer field.
  abbrev pub prepend_integer : ℕ → ℕ → Encoder → Encoder
  prepend_integer type n e =
      prepend (var_number type) (prepend (var_number (length (nonneg n))) (prepend (nonneg n) e))

  -- `prependBlock`, and `wireEncode(encoder)` of a name or a forwarding hint.
  abbrev pub prepend_block : Element → Encoder → Encoder
  prepend_block b e = prepend (block_bytes var_number b.type b.value) e

  -- The last two lines: the length of all that was written, and the type.
  abbrev pub close_block : ℕ → Encoder → Encoder
  close_block type e = prepend (var_number type) (prepend (var_number e.total) e)
